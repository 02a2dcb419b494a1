-- ===== src/Fs/Debuggee.antt =====
-- The debugged process, behind the connection of the library gojdb. The program asks it questions,
-- which can fail, and sends it commands; what it answers and does is not the program's.
use jdwpfs.Base.{ℕ, List, Option, Bytes}

-- The fields and methods of `jdwp.ClassInfo` that the program reads; `class_id` is what `ClassID()`
-- returns.
pub record ClassInfo : Type 0 where
  pub kind : ℕ
  pub type_id : ℕ
  pub class_id : ℕ
  pub signature : Bytes

-- `jdwp.Method` and `jdwp.Field`, alike in what the program reads; `mod_bits` is the text of the
-- modifier bits.
pub record Member : Type 0 where
  pub id : ℕ
  pub name : Bytes
  pub signature : Bytes
  pub mod_bits : Bytes

-- What the process answers at a moment; `none` is an error. A status is a thread status with a
-- suspend status.
pub record Debuggee : Type 0 where
  pub get_all_threads : Option (List ℕ)
  pub get_thread_name : ℕ → Option Bytes
  pub get_thread_status : ℕ → Option (ℕ × ℕ)
  pub get_all_classes : Option (List ClassInfo)
  pub get_methods : ℕ → Option (List Member)
  pub get_fields : ℕ → Option (List Member)
