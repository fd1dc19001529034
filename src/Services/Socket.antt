-- ===== src/Services/Socket.antt =====
-- kernel/socket.go
use microdbg_linux.Base.{ℕ, Option, none, some, bit_and, ◌||◌, ◌==◌, if◌then◌else◌}
use microdbg_linux.Base.Word.{to_32}
use microdbg_linux.Machine.{Machine, Network, unix, unix_gram, tcp, udp}
use microdbg_linux.Errno.{eacces, eafnosupport}
use microdbg_linux.Exec.{Exec, pure, panic, or_fail, on_files, on_host, ◌>>=◌}

abbrev pub af_unspec : ℕ
af_unspec = 0

abbrev pub af_local : ℕ
af_local = 1

abbrev pub af_inet : ℕ
af_inet = 2

abbrev pub af_inet6 : ℕ
af_inet6 = 10

abbrev pub sock_stream : ℕ
sock_stream = 1

abbrev pub sock_dgram : ℕ
sock_dgram = 2

abbrev pick : ℕ → Network → Network → Option Network
pick typ stream dgram =
    if typ == sock_stream then some stream else if typ == sock_dgram then some dgram else none

-- The switches on `domain` and `typ`; `none` is the empty network.
unfoldable pub network_of : ℕ → ℕ → Option Network
network_of domain typ =
    if domain == af_local
    then pick typ unix unix_gram
    else if domain == af_inet || domain == af_inet6
    then pick typ tcp udp
    else none

module _ {M : Machine} where
  unfoldable pub socket : ℕ → ℕ → ℕ → Exec M ℕ
  unfolding network_of
  socket domain typ protocol = if domain == af_unspec then panic else do
    network ← or_fail eafnosupport (network_of domain (bit_and typ 0x7ffff))
    made ← on_host (λ host. M.new_socket host network)
    file ← or_fail eacces made
    fd ← on_files (λ files. M.create_fd files file)
    pure (to_32 fd)
