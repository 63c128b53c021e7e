-- ===== src/Kernel/Run.antt =====
-- The outcome of the kernel's functions, which recur on fuel: a value, a `TypeError`, or a run that has
-- not come to its end.
use dnet.Prelude.{Bool, true, false, if◌then◌else◌, ◌≡◌, refl, subst, Option, none, some}

-- The reasons in `Unsupported` are left out.
pub data TypeError : Type 0 where
  unbound_var unknown_const unknown_ind not_a_sort not_a_pi mismatch unsupported : TypeError

pub data Run {ℓ} (A : Type ℓ) : Type ℓ where
  done : A → Run A
  fails : TypeError → Run A
  running : Run A

module _ {ℓ κ} {A : Type ℓ} {B : Type κ} where
  infixl 5 ◌>>=◌ ◌>>◌
  abbrev pub ◌>>=◌ : Run A → (A → Run B) → Run B
  running >>= k = running
  fails e >>= k = fails e
  done a >>= k = k a

  abbrev pub ◌>>◌ : Run A → Run B → Run B
  m >> k = m >>= λ _. k

-- `.ok()`
abbrev pub catch : {A : Type 0} → Run A → Run (Option A)
catch (done a) = done (some a)
catch (fails e) = done none
catch running = running

-- If it ends in a value, then `P` holds of the value.
pub data Yields {A : Type 0} (P : A → Type 0) : Run A → Type 0 where
  yields : {a : A} → P a → Yields P (done a)
  yields_error : {e : TypeError} → Yields P (fails e)
  yields_later : Yields P running

pub >>=-Yields :
    {A B : Type 0} {P : A → Type 0} {Q : B → Type 0} {m : Run A} {k : A → Run B}
    → Yields P m
    → ((a : A) → P a → Yields Q (k a))
    → Yields Q (m >>= k)
>>=-Yields (yields {a} p) next = next a p
>>=-Yields yields_error next = yields_error
>>=-Yields yields_later next = yields_later

pub if-Yields :
    {A : Type 0} {P : A → Type 0} (b : Bool) {x y : Run A}
    → (b ≡ true → Yields P x)
    → (b ≡ false → Yields P y)
    → Yields P (if b then x else y)
if-Yields true p q = p refl
if-Yields false p q = q refl

pub Yields-map :
    {A : Type 0} {P Q : A → Type 0} {m : Run A} → ((a : A) → P a → Q a) → Yields P m → Yields Q m
Yields-map f (yields {a} p) = yields (f a p)
Yields-map f yields_error = yields_error
Yields-map f yields_later = yields_later

pub done-Yields : {A : Type 0} {P : A → Type 0} {m : Run A} {a : A} → Yields P m → m ≡ done a → P a
done-Yields {P = P} (yields p) e = subst P (cc) p
done-Yields yields_error e = cc
done-Yields yields_later e = cc

-- Of the value that an optional result holds.
abbrev pub OnSome : {A : Type 0} → (A → Type 0) → Option A → Type 0
OnSome P o = (a : _) → o ≡ some a → P a

pub catch-Yields :
    {A : Type 0} {P : A → Type 0} {m : Run A} → Yields P m → Yields (OnSome P) (catch m)
catch-Yields {P = P} (yields p) = yields (λ a e. subst P (cc) p)
catch-Yields yields_error = yields (λ a e. cc)
catch-Yields yields_later = yields_later

pub then-Yields :
    {A B : Type 0} {Q : B → Type 0} (m : Run A) {k : A → Run B}
    → ((a : A) → Yields Q (k a))
    → Yields Q (m >>= k)
then-Yields (done a) next = next a
then-Yields (fails e) next = yields_error
then-Yields running next = yields_later

pub opt-Yields :
    {A B : Type 0} {Q : B → Type 0} (o : Option A) {k : A → Run (Option B)}
    → ((a : A) → o ≡ some a → Yields (OnSome Q) (k a))
    → Yields (OnSome Q) (elim o [ none ↦ done none | some a ↦ k a ])
opt-Yields none next = yields (λ b e. cc)
opt-Yields (some a) next = next a refl

pub opt_fails-Yields :
    {A B : Type 0} {Q : B → Type 0} (err : TypeError) (o : Option A) {k : A → Run B}
    → ((a : A) → o ≡ some a → Yields Q (k a))
    → Yields Q (elim o [ none ↦ fails err | some a ↦ k a ])
opt_fails-Yields err none next = yields_error
opt_fails-Yields err (some a) next = next a refl
