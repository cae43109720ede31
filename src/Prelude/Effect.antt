-- ===== src/Prelude/Effect.antt =====
-- Code that changes a state and may raise: the state is kept when an exception is raised.
use Prim.Native.String.{String}
use mathlib.Core.Path.{◌≡◌, refl}
use native.Mathlib.Omega.{arith}

-- The exceptions of the file system and of text decoding, with their texts.
pub data Fault : Type 0 where
  path_escape file_not_found os_error value_error : String → Fault

pub data Result (A : Type 0) : Type 0 where
  done : A → Result A
  failed : Fault → Result A

abbrev pub Effect : Type 0 → Type 0 → Type 0
Effect S A = S → S × Result A

abbrev pub pure : {S A : Type 0} → A → Effect S A
pure a s = (s, done a)

abbrev pub raise : {S A : Type 0} → Fault → Effect S A
raise e s = (s, failed e)

-- What follows a result.
abbrev pub continue_with : {S A B : Type 0} → S × Result A → (A → Effect S B) → S × Result B
continue_with (s, done a) f = f a s
continue_with (s, failed e) f = (s, failed e)

infixl 5 ◌>>=◌ ◌>>◌
abbrev pub ◌>>=◌ : {S A B : Type 0} → Effect S A → (A → Effect S B) → Effect S B
◌>>=◌ m f s = continue_with (m s) f

abbrev pub ◌>>◌ : {S B : Type 0} → Effect S (Unit {0}) → Effect S B → Effect S B
◌>>◌ m k s = continue_with (m s) (λ _. k)

-- `try: ... except ...`: the handler sees the state at the exception.
abbrev pub handle : {S A : Type 0} → S × Result A → (Fault → Effect S A) → S × Result A
handle (s, done a) h = (s, done a)
handle (s, failed e) h = h e s

-- What every run of `m` does to the state, whatever it returns.
abbrev pub Keeps : {S A : Type 0} → (S → S → Type 0) → Effect S A → Type 0
Keeps {S} R m = (s : S) → R s (m s).0

module _ {S : Type 0} (R : S → S → Type 0) (trans : (a b c : S) → R a b → R b c → R a c) where
  continue-R :
      {A B : Type 0} (s : S) (x : S × Result A) (f : A → Effect S B)
      → R s x.0
      → ((a : A) → Keeps R (f a))
      → R s (continue_with x f).0
  continue-R s (t, done a) f h k = trans s t _ h (k a t)
  continue-R s (t, failed e) f h k = h

  pub bind-Keeps :
      {A B : Type 0} (m : Effect S A) (f : A → Effect S B)
      → Keeps R m
      → ((a : A) → Keeps R (f a))
      → Keeps R (m >>= f)
  bind-Keeps m f h k s = continue-R s (m s) f (h s) k

  handle-R :
      {A : Type 0} (s : S) (x : S × Result A) (h : Fault → Effect S A)
      → R s x.0
      → ((e : Fault) → Keeps R (h e))
      → R s (handle x h).0
  handle-R s (t, done a) h r k = r
  handle-R s (t, failed e) h r k = trans s t _ r (k e t)

-- Inversion of a run that returned.
continue_with-done :
    {S A B : Type 0} (x : S × Result A) (f : A → Effect S B) {t : S} {b : B}
    → continue_with x f ≡ (t, done b)
    → (u : S) × (a : A) × (x ≡ (u, done a)) × (f a u ≡ (t, done b))
continue_with-done (u, done a) f h = (u, a, refl, h)
continue_with-done (u, failed e) f h = absurd (ground arith)

pub >>=-done :
    {S A B : Type 0} (m : Effect S A) (f : A → Effect S B) (s : S) {t : S} {b : B}
    → (m >>= f) s ≡ (t, done b)
    → (u : S) × (a : A) × (m s ≡ (u, done a)) × (f a u ≡ (t, done b))
>>=-done m f s h = continue_with-done (m s) f h
