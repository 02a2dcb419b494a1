-- ===== src/Debug/Errors.antt =====
-- Error values, and the `Error` methods of the error types of both packages: debug/event_manager.go,
-- debug/plugin_runner.go, fs/threads.go, fs/rootfs.go, fs/classes.go, fs/events.go.
use jdwpfs.Base.{List, [], ◌∷◌, ◌++◌, ◌≡◌, refl, ◌⊎◌, inl, inr, Bytes, codes}

-- The struct types with fields `err` and `message`.
pub data Wrapper : Type 0 where
  debugging_event plugin_builder plugin thread protocol class event_dir : Wrapper

-- `wrap w message` has a nil `err`; `wrap_err w message e` has one. `plugin_errors` is `PluginErrors`
-- with its slice. `outside` is an error of a library, with its text.
mutual
  pub data GoError : Type 0 where
    outside : Bytes → GoError
    context_canceled : GoError
    wrap : Wrapper → Bytes → GoError
    wrap_err : Wrapper → Bytes → GoError → GoError
    plugin_errors : GoErrors → GoError

  pub data GoErrors : Type 0 where
    nil : GoErrors
    cons : GoError → GoErrors → GoErrors

pub data Result {ℓ} (A : Type ℓ) : Type ℓ where
  ok : A → Result A
  err : GoError → Result A

-- The text before the colon in each `Error` method.
title : Wrapper → Bytes
title debugging_event = codes "jdwp event dir error"
title plugin_builder = codes "plugin builder error"
title plugin = codes "plugin error"
title thread = codes "jdwp thread error"
title protocol = codes "jdwp protocol error"
title class = codes "jdwp class error"
title event_dir = codes "jdwp event dir error"

-- `Error()`: an error that is set hides the message.
mutual
  pub print : GoError → Bytes
  print (outside s) = s
  print context_canceled = codes "context canceled"
  print (wrap w message) = title w ++ codes ": " ++ message
  print (wrap_err w message e) = title w ++ codes ": " ++ print e
  print (plugin_errors es) = print_all (codes "unable to successfully consume events: ") es

  print_all : Bytes → GoErrors → Bytes
  print_all acc nil = acc
  print_all acc (cons e es) = print_all (acc ++ codes "\n" ++ print e) es

-- `AddError` appends.
pub add_error : GoErrors → GoError → GoErrors
add_error nil e = cons e nil
add_error (cons d es) e = cons d (add_error es e)

unfoldable pub from_list : List GoError → GoErrors
from_list [] = nil
from_list (e ∷ es) = cons e (from_list es)

pub add_error-from_list :
    (es : List GoError) (e : GoError) → add_error (from_list es) e ≡ from_list (es ++ e ∷ [])
unfolding add_error from_list
add_error-from_list [] e = refl
add_error-from_list (d ∷ es) e = rw (add_error-from_list es e)

pub Result-cases {ℓ} :
    {A : Type ℓ} (r : Result A) → ((a : A) × (r ≡ ok a)) ⊎ ((e : GoError) × (r ≡ err e))
Result-cases (ok a) = inl (a, refl)
Result-cases (err e) = inr (e, refl)
