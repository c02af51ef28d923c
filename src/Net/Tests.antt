-- ===== src/Net/Tests.antt =====
-- The theorems about endpoints at concrete addresses.
use baba_io.Base.{
  ℕ, pos, negsuc, none, some, List, [], ◌∷◌, ◌+◌, ◌^◌, ◌==◌, if◌then◌else◌, ◌≡◌, refl, arith,
  decimal, decimal-injective,
}
use baba_io.Os.Codes.{ok_code}
use baba_io.Os.Kernel.{Kernel}
use baba_io.Os.SocketImpl
use baba_io.Os.Tests.{small_kernel, nobody, good, bad}
use baba_io.Net.Storage.{SockStorage, zeroed, af_inet, af_inet6}
use baba_io.Net.IpAddress.{IpAddress}
use baba_io.Net.IpEndpoint.{from_address, from_sockaddr_in}
use baba_io.Net.IpEndpoint.Native.{SameEndpoint4, from_sockaddr_in-from_address}
use baba_io.Net.IpEndpoint.Same.{Prints}
use baba_io.Net.SocketOption.{
  IntOption, GroupOption, ipproto_ip, ip_add_membership, default_int_option, default_address_option,
  default_group_option,
}
use baba_io.Net.SocketCalls
use baba_io.Net.SocketCalls.Options.{
  bytes_int, get_int_option, get_address_option, get_group_option,
}
use baba_io.Net.SocketCalls.Options.Defaults.{default-get_option}
use baba_io.Net.Wsa.Winsock.{Winsock}
use baba_io.Net.Wsa.Transfers.{post_transfer, post_recv_from}
use baba_io.Net.Wsa.Outcomes.{Agree, overlapped-direct}
use baba_io.Net.SocketCalls.{connect, bind, code_of}
use baba_io.Net.SocketCalls.Families.{connect_v6-bind_v6}

abbrev garbage : SockStorage
garbage = record { family = 77; port = 1; word = 2; body = 3; scope = 4 }

-- 127.0.0.1 and ::1.
abbrev localhost4 : IpAddress
localhost4 = record { addr = 0x0100_007f; af = af_inet }

abbrev localhost6 : IpAddress
localhost6 = record { addr = 2 ^ 120; af = af_inet6 }

from_sockaddr_in-from_address_example :
    SameEndpoint4
      (from_address garbage localhost4 8080)
      (from_sockaddr_in zeroed 99 (from_address garbage localhost4 8080).sock)
from_sockaddr_in-from_address_example =
    from_sockaddr_in-from_address garbage zeroed 99 localhost4 8080 (omega arith) refl

connect_v6-bind_v6_example :
    (connect small_kernel (pos 7) (from_address garbage localhost6 8080) nobody ≡ (ok_code, nobody))
    × (bind small_kernel (pos 7) (from_address garbage localhost6 8080) nobody
        ≡ code_of (
            small_kernel.bind
              (pos 7)
              (from_address garbage localhost6 8080).sock
              (from_address garbage localhost6 8080).sock_len
              nobody))
connect_v6-bind_v6_example =
    connect_v6-bind_v6 small_kernel garbage localhost6 8080 (pos 7) nobody refl

-- A system that keeps one option, and answers with it.
abbrev one_option : Kernel ℕ
one_option = record {
  epoll_create1 = λ w. (good (pos 3), w);
  epoll_ctl = λ epoll_fd op fd evt w. (good (pos 0), w);
  epoll_wait = λ epoll_fd size w. (good (pos 0), [], w);
  close = λ fd w. w;
  read = λ fd buffer size w. (good (pos 0), w);
  write = λ fd buffer size w. (good (pos 1), w);
  pipe = λ w. (good (pos 0), (pos 4, pos 5), w);
  fcntl_getfl = λ fd w. (good (pos 0), w);
  fcntl_setfl = λ fd flags w. (good (pos 0), w);
  timerfd_create = λ w. (good (pos 6), w);
  timerfd_settime = λ fd e w. (good (pos 0), w);
  recv = λ fd buffer size w. (good (pos 9), w);
  send = λ fd buffer size w. (good (pos 9), w);
  socket = λ af type w. (good (pos 8), w);
  accept = λ fd sock_len w. (good (pos 9), zeroed, w);
  connect = λ fd sock sock_len w. (good (pos 0), w);
  sendto = λ fd buffer size sock sock_len w. (good (pos 5), w);
  recvfrom = λ fd buffer size sock_len w. (good (pos 9), garbage, w);
  shutdown = λ fd how w. (good (pos 0), w);
  bind = λ fd sock sock_len w. (good (pos 0), w);
  listen = λ fd backlog w. (good (pos 0), w);
  setsockopt = λ fd level name value len w. (good (pos 0), value);
  getsockopt = λ fd level name before len w. (good (pos 0), w, w);
}

abbrev linger : IntOption
linger = record { level = 1; optname = 13; optval = negsuc 4 }

abbrev group : GroupOption
group = record {
  level = ipproto_ip;
  optname = ip_add_membership;
  iface = localhost4;
  iface_index = 0;
  mcast = record { addr = 0x0100_00e0; af = af_inet };
}

default-get_option_example :
    (get_int_option one_option (pos 7) default_int_option 6
      ≡ get_int_option
          (record one_option { getsockopt = λ fd level name before len w. (good (pos 0), 6, w) })
          (pos 7)
          default_int_option
          6)
    × (get_address_option one_option 5 99 (pos 7) default_address_option 6
        ≡ ((ok_code, default_address_option), 6))
    × (get_group_option one_option (λ af text. none) 5 99 (pos 7) default_group_option 6
        ≡ ((ok_code, default_group_option), 6))
default-get_option_example =
    default-get_option one_option
      (record one_option { getsockopt = λ fd level name before len w. (good (pos 0), 6, w) })
      (pos 7) 6 (λ af text. none) 5 99 refl

-- Windows, with 9 bytes in every transfer.
abbrev windows : Winsock ℕ
windows = record {
  socket = λ af type w. (good (pos 8), w);
  ioctl = λ fd extension w. (good (pos 0), some 1, w);
  call_accept_ex = λ fn acceptor peer ep_buffer ep_size evt w. (good (pos 1), w);
  call_connect_ex = λ fn fd sock sock_len evt w. (good (pos 1), w);
  get_overlapped_result = λ fd evt w. (good (pos 1), 9, w);
  send = λ fd buffer evt w. (good (pos 0), w);
  recv = λ fd buffer evt w. (good (pos 0), w);
  send_to = λ fd buffer sock sock_len evt w. (good (pos 0), w);
  recv_from = λ fd buffer peer_sock sock_len evt w. (good (pos 0), w);
  getpeername = λ fd len w. (good (pos 0), garbage, w);
  update_accept_context = λ fd acceptor w. (good (pos 0), w);
  update_connect_context = λ fd connector w. (good (pos 0), w);
  shutdown = λ fd how w. (good (pos 0), w);
  setsockopt = λ fd level name value len w. (good (pos 0), value);
  getsockopt = λ fd level name before len w. (good (pos 0), w, w);
  bind = λ fd sock sock_len w. (bad 10048, w);
  listen = λ fd backlog w. (good (pos 0), w);
}

nine_bytes : Agree (good (pos 9)) (good (pos 1)) 9
unfolding bytes_int
nine_bytes = record { failed = refl; errno = refl; count = λ h. refl }

overlapped-direct_example :
    (post_transfer windows (pos 7) 1 0 ≡ SocketImpl.recv one_option (pos 7) 1000 (pos 64) 0)
    × (post_transfer windows (pos 7) 1 0 ≡ SocketImpl.send one_option (pos 7) 1000 (pos 64) 0)
    × (post_recv_from windows zeroed 99 (pos 7) (from_address garbage localhost4 8080) garbage 1 0
        ≡ SocketCalls.recv_from one_option zeroed 99
            (pos 7)
            1000
            (pos 64)
            (from_address garbage localhost4 8080)
            0)
overlapped-direct_example =
    overlapped-direct one_option windows (pos 7) 1 1000 (pos 64) 0 0 (good (pos 9)) (good (pos 1)) 9
      garbage (from_address garbage localhost4 8080) zeroed 99 nine_bytes refl refl refl refl

-- A text of an address, for want of the C library: a point or a colon, and a number.
abbrev sample_ntop : ℕ → ℕ → List ℕ
sample_ntop family a = (if family == af_inet then b'.' else b':') ∷ decimal a

behind : {x y : ℕ} {xs ys : List ℕ} → x ∷ xs ≡ y ∷ ys → xs ≡ ys
behind h = cc

sample_ntop-Prints : Prints sample_ntop
sample_ntop-Prints = record {
  ipv4 = λ m n hm hn h. decimal-injective m n (behind h);
  ipv6 = λ m n hm hn h. decimal-injective m n (behind h);
  apart = λ m n h. absurd (cc h);
  ipv4_text = λ m h. absurd (cc h);
  ipv6_text = λ m h. absurd (cc h);
}

-- The first four bytes are those of 127.0.0.1, and the others are not.
abbrev other_localhost4 : IpAddress
other_localhost4 = record { addr = 2 ^ 64 + 0x0100_007f; af = af_inet }
