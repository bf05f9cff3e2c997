-- ===== src/Config/Checked.antt =====
-- Errors of internal/config: a result that is a value or a refusal, in the terms of errors.New and
-- fmt.Errorf, with the rules by which a `do` block of checks is taken apart.
use server_assistant.Prelude.{String, ◌≡◌, refl, Bool, true, false, List}
use server_assistant.Prelude.Int.{ℤ}

-- An argument of a message: a text for %q or %s, a number for %d or %s.
pub data Arg : Type 0 where
  text : String → Arg
  number : ℤ → Arg

-- `refused` is errors.New or fmt.Errorf with its format, `wrapped` is fmt.Errorf whose last verb
-- is %w, and `foreign` is an error of Go's library.
pub data Refusal : Type 0 where
  refused : String → List Arg → Refusal
  wrapped : String → List Arg → Refusal → Refusal
  foreign : String → Refusal

pub data Checked {ℓ} (A : Type ℓ) : Type ℓ where
  good : A → Checked A
  bad : Refusal → Checked A

infixl 5 ◌>>=◌ ◌>>◌
unfoldable pub ◌>>=◌ {ℓ κ} : {A : Type ℓ} {B : Type κ} → Checked A → (A → Checked B) → Checked B
good a >>= next = next a
bad why >>= next = bad why

abbrev pub ◌>>◌ {ℓ} : {B : Type ℓ} → Checked (Unit {0}) → Checked B → Checked B
first >> next = first >>= λ _. next

-- if test { return why }
unfoldable pub refuse_if : Bool → Refusal → Checked (Unit {0})
refuse_if true why = bad why
refuse_if false why = good tt

-- if err != nil { return fmt.Errorf(…, err) }
unfoldable pub within {ℓ} : {A : Type ℓ} → (Refusal → Refusal) → Checked A → Checked A
within frame (good a) = good a
within frame (bad why) = bad (frame why)

-- What an accepted value satisfies.
abbrev pub Ensures {ℓ κ} : {A : Type ℓ} → (A → Type κ) → Checked A → Type κ
Ensures P (good a) = P a
Ensures P (bad why) = Unit

pub accepted_bind {ℓ κ} :
    {A : Type ℓ} {B : Type κ} (m : Checked A) (next : A → Checked B) {b : B}
    → (m >>= next) ≡ good b
    → (a : A) × (m ≡ good a) × (next a ≡ good b)
unfolding ◌>>=◌
accepted_bind (good a) next e = (a, refl, e)
accepted_bind (bad why) next e = cc

pub accepted_guard {ℓ} :
    {B : Type ℓ} (test : Bool) (why : Refusal) (next : Unit {0} → Checked B) {b : B}
    → (refuse_if test why >>= next) ≡ good b
    → (test ≡ false) × (next tt ≡ good b)
unfolding ◌>>=◌ refuse_if
accepted_guard true why next e = cc
accepted_guard false why next e = (refl, e)

pub accepted_within {ℓ κ} :
    {A : Type ℓ} {B : Type κ} (frame : Refusal → Refusal) (m : Checked A) (next : A → Checked B)
    {b : B}
    → (within frame m >>= next) ≡ good b
    → (a : A) × (m ≡ good a) × (next a ≡ good b)
unfolding ◌>>=◌ within
accepted_within frame (good a) next e = (a, refl, e)
accepted_within frame (bad why) next e = cc

pub within_good {ℓ} :
    {A : Type ℓ} (frame : Refusal → Refusal) (m : Checked A) {a : A}
    → within frame m ≡ good a
    → m ≡ good a
unfolding within
within_good frame (good a) e = e
within_good frame (bad why) e = cc

-- The other way: a bind whose parts are accepted.
pub then_good {ℓ κ} :
    {A : Type ℓ} {B : Type κ} {m : Checked A} (next : A → Checked B) {a : A} {r : Checked B}
    → m ≡ good a
    → next a ≡ r
    → (m >>= next) ≡ r
unfolding ◌>>=◌
then_good next e f = rw e f

pub then_within {ℓ κ} :
    {A : Type ℓ} {B : Type κ} (frame : Refusal → Refusal) {m : Checked A} (next : A → Checked B)
    {a : A} {r : Checked B}
    → m ≡ good a
    → next a ≡ r
    → (within frame m >>= next) ≡ r
unfolding ◌>>=◌ within
then_within frame next e f = rw e f

pub then_guard {ℓ} :
    {B : Type ℓ} {test : Bool} (why : Refusal) (next : Unit {0} → Checked B) {r : Checked B}
    → test ≡ false
    → next tt ≡ r
    → (refuse_if test why >>= next) ≡ r
unfolding ◌>>=◌ refuse_if
then_guard why next e f = rw e f
