-- ===== src/Ranges/Interleaving.antt =====
-- The order of the calls that the tasks of hikyuu/utilities/thread/algorithm.h make.
use hku_utils.Base.{◌≡◌, sym, List, [], ◌∷◌, ◌++◌}
use mathlib.Core.List.{Perm, perm_middle}
use mathlib.Core.List.Perm

abbrev pub concat {ℓ} : {A : Type ℓ} → List (List A) → List A
concat [] = []
concat (l ∷ ls) = l ++ concat ls

-- The calls of several tasks in the order in which the threads happen to make them: a next call is the
-- first one that some task has left.
pub data Interleaved {ℓ} {A : Type ℓ} : List (List A) → List A → Type ℓ where
  over : Interleaved [] []
  finished : {tasks : List (List A)} {l : List A} → Interleaved tasks l → Interleaved ([] ∷ tasks) l
  call :
      (pre : List (List A)) (x : A) (task : List A) (post tasks : List (List A)) {l : List A}
      → tasks ≡ pre ++ (x ∷ task) ∷ post
      → Interleaved (pre ++ task ∷ post) l
      → Interleaved tasks (x ∷ l)

module _ {ℓ} {A : Type ℓ} where
  concat-call :
      (pre : List (List A)) (x : A) (task : List A) (post : List (List A))
      → Perm (concat (pre ++ (x ∷ task) ∷ post)) (x ∷ concat (pre ++ task ∷ post))
  concat-call [] x task post = Perm.rfl
  concat-call (p ∷ pre) x task post =
      Perm.trans (Perm.append_left p (concat-call pre x task post))
        (perm_middle p (concat (pre ++ task ∷ post)))

  -- Whatever the order, the calls are those of the tasks.
  pub Interleaved-perm :
      {tasks : List (List A)} {l : List A} → Interleaved tasks l → Perm (concat tasks) l
  Interleaved-perm over = Perm.nil
  Interleaved-perm (finished i) = Interleaved-perm i
  Interleaved-perm (call pre x task post tasks e i) =
      rw e (Perm.trans (concat-call pre x task post) (Perm.cons x (Interleaved-perm i)))

  -- Without a task there is no call.
  pub Interleaved-none : (l : List A) → Interleaved [] l → l ≡ []
  Interleaved-none l i = sym (Perm.nil-eq (Interleaved-perm i))
