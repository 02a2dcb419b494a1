-- ===== src/Fs/Node.antt =====
-- What the nodes of the package `fs` share: replies, attributes, and the texts that the files serve.
use Prim.Native.Nat.{bit_and}
use jdwpfs.Base.{
  ℕ, ◌%◌, ◌^◌, ◌≡◌, refl, ◌⊎◌, inl, inr, Bytes, length, drop, ltb, ◌==◌, if◌then◌else◌,
}

-- The error numbers that the handlers return.
pub data Errno : Type 0 where
  ebadr enavail ebade ebadmsg eafnosupport enoent eaddrnotavail eacces erofs ecanceled efault :
      Errno
  ebadf ebadfd : Errno

-- The values of a handler with error number 0, or another error number.
pub data Reply {ℓ} (A : Type ℓ) : Type ℓ where
  reply : A → Reply A
  fail : Errno → Reply A

-- The kinds of a directory entry or node: `S_IFREG`, `S_IFDIR`, `S_IFLNK`.
pub data Mode : Type 0 where
  regular directory link : Mode

pub record DirEntry : Type 0 where
  pub mode : Mode
  pub name : Bytes

-- The nodes of the library that the program makes, with mode 0444: a link with its target, and a
-- file with its text.
pub data MemSymlink : Type 0 where
  mem_symlink : Bytes → MemSymlink

pub data MemRegularFile : Type 0 where
  mem_regular_file : Bytes → MemRegularFile

-- `O_APPEND | O_CLOEXEC | O_EXCL | O_NOCTTY` on Linux, and `FOPEN_DIRECT_IO`.
abbrev pub refused_flags : ℕ
refused_flags = 0x80580

abbrev pub fopen_direct_io : ℕ
fopen_direct_io = 1

-- The attributes that `Setattr` reads and those it fills in; `size` is what `GetSize` returns.
pub record SetAttrIn : Type 0 where
  pub size : ℕ
  pub mode : ℕ
  pub atime : ℕ
  pub atime_nsec : ℕ

pub record AttrOut : Type 0 where
  pub mode : ℕ
  pub atime : ℕ
  pub atime_nsec : ℕ

-- `uint32(len(data))`
abbrev pub written : Bytes → ℕ
written s = length s % 2 ^ 32

-- The end of each `Read`: the text from an offset on, refused behind its end. An offset is not
-- negative.
unfoldable pub read_from : Bytes → ℕ → Reply Bytes
read_from text offset = if ltb (length text) offset then fail ebadr else reply (drop offset text)

-- The `Open` of the control files, which reads and writes past the page cache.
unfoldable pub open_direct : ℕ → Reply ℕ
open_direct flags = if bit_and flags refused_flags == 0 then reply fopen_direct_io else fail ebadr

-- Their `Setattr`: truncation to 0 alone is accepted.
unfoldable pub set_attributes : SetAttrIn → AttrOut → Reply AttrOut
set_attributes input out =
    if input.size == 0
    then reply (record { mode = input.mode; atime = input.atime; atime_nsec = input.atime_nsec })
    else fail ebadr

pub Reply-cases {ℓ} :
    {A : Type ℓ} (r : Reply A) → ((a : A) × (r ≡ reply a)) ⊎ ((e : Errno) × (r ≡ fail e))
Reply-cases (reply a) = inl (a, refl)
Reply-cases (fail e) = inr (e, refl)
