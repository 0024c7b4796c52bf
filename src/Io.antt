-- ===== src/Io.antt =====
-- core/io_context.h: the context of a request. Pointers, handles and callbacks are numbers, an
-- address is its bytes.
use magio.Prelude.{ℕ, List, [], ◌∷◌, ◌==◌, ◌+◌, ◌*◌, if◌then◌else◌}

pub data Operation : Type 0 where
  noop write_file read_file accept connect send receive send_to receive_from : Operation

-- `ptr`: what the user passed, or a ResumeWithMsg, which keeps it and the length of the name.
pub data UserData : Type 0 where
  user : ℕ → UserData
  with_msg : (msg_namelen ptr : ℕ) → UserData

pub record IoContext : Type 0 where
  pub op : Operation
  pub buf : ℕ
  pub len : ℕ
  pub remote_addr : List ℕ
  pub addr_len : ℕ
  pub ptr : UserData
  pub cb : ℕ
  pub res : ℕ

abbrev pub af_inet : ℕ
af_inet = 2

abbrev sizeof_sockaddr_in : ℕ
sizeof_sockaddr_in = 16

abbrev pub sizeof_sockaddr_in6 : ℕ
sizeof_sockaddr_in6 = 28

-- `sa_family`, a 16-bit number in the byte order of the host, which is little-endian.
abbrev pub sa_family : List ℕ → ℕ
sa_family (lo ∷ hi ∷ rest) = lo + 256 * hi
sa_family _ = 0

abbrev pub sockaddr_len : List ℕ → ℕ
sockaddr_len addr = if sa_family addr == af_inet then sizeof_sockaddr_in else sizeof_sockaddr_in6

-- Members that a designated initialiser leaves out are zero.
abbrev pub blank : Operation → ℕ → ℕ → IoContext
blank op user_ptr cb = record {
  op = op;
  buf = 0;
  len = 0;
  remote_addr = [];
  addr_len = 0;
  ptr = user user_ptr;
  cb = cb;
  res = 0;
}
