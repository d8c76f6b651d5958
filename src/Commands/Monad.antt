-- ===== src/Commands/Monad.antt =====
-- A command as a function of its state: the files, whatever they are, and the lines printed to
-- standard output and standard error. An `error` value of Go is its text.
use Prim.Native.Char.{Char}
use go_bricks_openapi.Prelude.{
  if◌then◌else◌, ◌≡◌, refl, ◌⊎◌, ◌∙◌, inl, inr, String, Bool, true, false, List, [], ◌∷◌, ◌++◌,
}
use go_bricks_openapi.Go.Strings.{str_append, str_cons}

pub record Run (W : Type 0) : Type 0 where
  pub files : W
  pub stdout : List String
  pub stderr : List String

pub data Result (A : Type 0) : Type 0 where
  done : A → Result A
  failed : String → Result A

abbrev pub Action : Type 0 → Type 0 → Type 0
Action W A = Run W → Result A × Run W

infixr 6 ◌<>◌
abbrev pub ◌<>◌ : String → String → String
s <> t = str_append s t

infixl 5 ◌>>=◌ ◌>>◌
abbrev pub ◌>>=◌ : {W A B : Type 0} → Action W A → (A → Action W B) → Action W B
◌>>=◌ m k r = let (res, r') = m r in elim res [ done a ↦ k a r' | failed e ↦ (failed e, r') ]

abbrev pub ◌>>◌ : {W A B : Type 0} → Action W A → Action W B → Action W B
m >> k = m >>= λ _. k

module _ {W : Type 0} where
  abbrev pub pure : {A : Type 0} → A → Action W A
  pure a r = (done a, r)

  abbrev pub fail : {A : Type 0} → String → Action W A
  fail e r = (failed e, r)

  abbrev pub of_result : {A : Type 0} → Result A → Action W A
  of_result res r = (res, r)

  abbrev pub println : String → Action W (Unit {0})
  println line r = (done tt, record r { stdout = r.stdout ++ (line ∷ []) })

  abbrev pub eprintln : String → Action W (Unit {0})
  eprintln line r = (done tt, record r { stderr = r.stderr ++ (line ∷ []) })

  abbrev pub when : Bool → Action W (Unit {0}) → Action W (Unit {0})
  when true act = act
  when false act = pure tt

  abbrev pub gets : {A : Type 0} → (W → A) → Action W A
  gets f r = (done (f r.files), r)

  -- Each line of a list.
  unfoldable pub println_each : List String → Action W (Unit {0})
  println_each [] = pure tt
  println_each (line ∷ lines) = println line >> println_each lines

  unfoldable pub eprintln_each : List String → Action W (Unit {0})
  eprintln_each [] = pure tt
  eprintln_each (line ∷ lines) = eprintln line >> eprintln_each lines

-- The variation selector, which follows some signs.
abbrev pub sel : String
sel = str_cons (Char.char 65039 tt) ""

pub Result-cases :
    {A : Type 0} (res : Result A) → ((a : A) × (res ≡ done a)) ⊎ ((e : String) × (res ≡ failed e))
Result-cases (done a) = inl (a, refl)
Result-cases (failed e) = inr (e, refl)

-- A statement about the end of an action that does not fail.
abbrev pub After : {W A : Type 0} → (A → Run W → Type 0) → Result A × Run W → Type 0
After P out = elim out.0 [ done a ↦ P a out.1 | failed e ↦ Unit ]

bind_end :
    {W A B : Type 0} (P : A → Run W → Type 0) (Q : B → Run W → Type 0) (k : A → Action W B)
    (out : Result A × Run W)
    → After P out
    → ((a : A) (r' : Run W) → P a r' → After Q (k a r'))
    → After Q (elim out.0 [ done a ↦ k a out.1 | failed e ↦ (failed e, out.1) ])
bind_end P Q k (done a, r') h next = next a r' h
bind_end P Q k (failed e, r') h next = tt

pub After-bind :
    {W A B : Type 0} (P : A → Run W → Type 0) (Q : B → Run W → Type 0) (m : Action W A)
    (k : A → Action W B) (r : Run W)
    → After P (m r)
    → ((a : A) (r' : Run W) → P a r' → After Q (k a r'))
    → After Q ((m >>= k) r)
After-bind P Q m k r h next = bind_end P Q k (m r) h next

pub After-weaken :
    {W A : Type 0} (P Q : A → Run W → Type 0) (out : Result A × Run W)
    → After P out
    → ((a : A) (r' : Run W) → P a r' → Q a r')
    → After Q out
After-weaken P Q (done a, r') h next = next a r' h
After-weaken P Q (failed e, r') h next = tt

After-any : {W A : Type 0} (out : Result A × Run W) → After (λ a r'. Unit) out
After-any (done a, r') = tt
After-any (failed e, r') = tt

-- An action that ends in an error ends in no other way.
pub After-fail :
    {W A B : Type 0} (Q : B → Run W → Type 0) (m : Action W A) (e : String) (r : Run W)
    → After Q ((m >> fail e) r)
After-fail Q m e r = After-bind (λ a r'. Unit) Q m (λ a. fail e) r (After-any (m r)) (λ a r' h. tt)

pub After-if :
    {W A : Type 0} (Q : A → Run W → Type 0) (b : Bool) (m n : Action W A) (r : Run W)
    → (b ≡ true → After Q (m r))
    → (b ≡ false → After Q (n r))
    → After Q ((if b then m else n) r)
After-if Q true m n r h k = h refl
After-if Q false m n r h k = k refl

pub if_taken :
    {W A : Type 0} (b : Bool) (m n : Action W A) (r : Run W)
    → b ≡ true
    → (if b then m else n) r ≡ m r
if_taken true m n r h = refl
if_taken false m n r h = cc h

pub if_skipped :
    {W A : Type 0} (b : Bool) (m n : Action W A) (r : Run W)
    → b ≡ false
    → (if b then m else n) r ≡ n r
if_skipped true m n r h = cc h
if_skipped false m n r h = refl

-- The action ends with this result, and leaves the files alone.
abbrev pub Gives : {W A : Type 0} → Run W → Result A → Result A × Run W → Type 0
Gives r res out = (out.0 ≡ res) × (out.1.files ≡ r.files)

Gives-next :
    {W A B : Type 0} (k : A → Action W B) (a : A) (res : Result B) (r : Run W)
    (out : Result A × Run W)
    → Gives r (done a) out
    → ((r' : Run W) → r'.files ≡ r.files → Gives r' res (k a r'))
    → Gives r res (elim out.0 [ done b ↦ k b out.1 | failed e ↦ (failed e, out.1) ])
Gives-next k a res r (done b, r') (e, q) next =
    let same : a ≡ b = cc e in let (x, p) = next r' q in rw (← same) (x, p ∙ q)
Gives-next k a res r (failed x, r') (e, q) next = absurd (cc e)

pub Gives-bind :
    {W A B : Type 0} (m : Action W A) (k : A → Action W B) (a : A) (res : Result B) (r : Run W)
    → Gives r (done a) (m r)
    → ((r' : Run W) → r'.files ≡ r.files → Gives r' res (k a r'))
    → Gives r res ((m >>= k) r)
Gives-bind m k a res r h next = Gives-next k a res r (m r) h next

Gives_next_is :
    {W A B : Type 0} (P : Result B × Run W → Type 0) (k : A → Action W B) (a : A) (r : Run W)
    (out : Result A × Run W)
    → Gives r (done a) out
    → ((r' : Run W) → r'.files ≡ r.files → P (k a r'))
    → P (elim out.0 [ done b ↦ k b out.1 | failed e ↦ (failed e, out.1) ])
Gives_next_is P k a r (done b, r') (e, q) next = let same : a ≡ b = cc e in rw (← same) (next r' q)
Gives_next_is P k a r (failed x, r') (e, q) next = absurd (cc e)

-- What holds of every end of the second action holds of the end of both.
pub Gives_then :
    {W A B : Type 0} (P : Result B × Run W → Type 0) (m : Action W A) (k : A → Action W B) (a : A)
    (r : Run W)
    → Gives r (done a) (m r)
    → ((r' : Run W) → r'.files ≡ r.files → P (k a r'))
    → P ((m >>= k) r)
Gives_then P m k a r h next = Gives_next_is P k a r (m r) h next

pub when-Gives :
    {W : Type 0} (b : Bool) (act : Action W (Unit {0})) (r : Run W)
    → Gives r (done tt) (act r)
    → Gives r (done tt) (when b act r)
when-Gives true act r h = h
when-Gives false act r h = (refl, refl)
