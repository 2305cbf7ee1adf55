-- ===== src/Queue/Order.antt =====
-- What goes through the queues of hikyuu/utilities/thread.
use hku_utils.Base.{
  List, [], ◌∷◌, ◌++◌, Option, none, some, false, ◌≡◌, refl, subst, append_assoc, last_split,
}
use mathlib.Core.List.{Perm, get_last?, drop_last, perm_append_singleton, perm_middle}
use mathlib.Core.List.Perm
use hku_utils.Queue.{FuncWrapper, is_null_task}
use hku_utils.Queue

-- The calls on a WorkStealQueue, or an MQStealQueue: the owner pushes and pops in front, others steal at
-- the back.
pub data Call {ℓ} (T : Type ℓ) : Type ℓ where
  push_front push : FuncWrapper T → Call T
  try_pop try_steal : Call T

-- The queue, what was put into it, and what was taken from it.
pub record History {ℓ} (T : Type ℓ) : Type ℓ where
  pub queue : List (FuncWrapper T)
  pub pushed : List (FuncWrapper T)
  pub popped : List (FuncWrapper T)
  pub stolen : List (FuncWrapper T)

module _ {ℓ} {T : Type ℓ} where
  abbrev pub taken : Option (FuncWrapper T) → List (FuncWrapper T) → List (FuncWrapper T)
  taken none l = l
  taken (some x) l = x ∷ l

  unfoldable pub step : Call T → History T → History T
  step (push_front x) h = record h { queue = Queue.push_front x h.queue; pushed = x ∷ h.pushed }
  step (push x) h = record h { queue = Queue.push x h.queue; pushed = x ∷ h.pushed }
  step try_pop h = record h {
    queue = (Queue.try_pop h.queue).1;
    popped = taken (Queue.try_pop h.queue).0 h.popped;
  }
  step try_steal h = record h {
    queue = (Queue.try_steal h.queue).1;
    stolen = taken (Queue.try_steal h.queue).0 h.stolen;
  }

  unfoldable pub run : List (Call T) → History T → History T
  unfolding step
  run [] h = h
  run (c ∷ calls) h = run calls (step c h)

  abbrev pub NoNull : List (FuncWrapper T) → Type 0
  NoNull [] = Unit
  NoNull (x ∷ l) = (is_null_task x ≡ false) × NoNull l

  pub record Balanced (h : History T) : Type ℓ where
    pub same : Perm h.pushed (h.popped ++ (h.stolen ++ h.queue))
    pub tasks : NoNull h.stolen

  -- An element inside the third of three lists moves to the front.
  to_front :
      (x : FuncWrapper T) (l r q : List (FuncWrapper T))
      → Perm (l ++ (r ++ x ∷ q)) (x ∷ (l ++ (r ++ q)))
  to_front x l r q = Perm.trans (Perm.append_left l (perm_middle r q)) (perm_middle l (r ++ q))

  pop-Perm :
      (q l r : List (FuncWrapper T))
      → Perm (l ++ (r ++ q)) (taken (Queue.try_pop q).0 l ++ (r ++ (Queue.try_pop q).1))
  unfolding Queue.try_pop
  pop-Perm [] l r = Perm.rfl
  pop-Perm (x ∷ q) l r = to_front x l r q

  front-Balanced :
      (x : FuncWrapper T) (h : History T) → Balanced h → Balanced (step (push_front x) h)
  unfolding step Queue.push_front
  front-Balanced x h b = record {
    same = Perm.trans (Perm.cons x b.same) (Perm.symm (to_front x h.popped h.stolen h.queue));
    tasks = b.tasks;
  }

  back-Balanced : (x : FuncWrapper T) (h : History T) → Balanced h → Balanced (step (push x) h)
  unfolding step Queue.push Queue.push_front
  back-Balanced x h b = record {
    same = Perm.trans (front-Balanced x h b).same (
        Perm.append_left h.popped
          (Perm.append_left h.stolen (Perm.symm (perm_append_singleton x h.queue))));
    tasks = b.tasks;
  }

  pop-Balanced : (h : History T) → Balanced h → Balanced (step try_pop h)
  unfolding step
  pop-Balanced h b = record {
    same = Perm.trans b.same (pop-Perm h.queue h.popped h.stolen);
    tasks = b.tasks;
  }

  stolen-Perm :
      (x : FuncWrapper T) (h : History T)
      → get_last? h.queue ≡ some x
      → Balanced h
      → Perm h.pushed (h.popped ++ (x ∷ (h.stolen ++ drop_last h.queue)))
  stolen-Perm x h e b =
      let whole = last_split h.queue x e in
      Perm.trans (subst (λ q. Perm h.pushed (h.popped ++ (h.stolen ++ q))) whole b.same) (
        Perm.append_left h.popped (
          subst (λ q. Perm q (x ∷ (h.stolen ++ drop_last h.queue)))
            (append_assoc h.stolen (drop_last h.queue) (x ∷ []))
            (perm_append_singleton x (h.stolen ++ drop_last h.queue))))

  steal-Balanced :
      (h : History T) (e : Option (Option T))
      → get_last? h.queue ≡ e
      → Balanced h
      → Balanced (step try_steal h)
  unfolding step is_null_task Queue.try_steal
  steal-Balanced h none e b = rw (e, Queue.try_steal) b
  steal-Balanced h (some none) e b = rw (e, Queue.try_steal) b
  steal-Balanced h (some (some t)) e b =
      rw (e, Queue.try_steal)
        (record { same = stolen-Perm (some t) h e b; tasks = (refl, b.tasks) })

  -- Whatever the owner and the thieves do, in any order, what was put into the queue is what was
  -- popped, what was stolen and what is left, each once; and no null task is ever stolen.
  pub run-Balanced : (calls : List (Call T)) (h : History T) → Balanced h → Balanced (run calls h)
  unfolding run
  run-Balanced [] h b = b
  run-Balanced (push_front x ∷ calls) h b = run-Balanced calls _ (front-Balanced x h b)
  run-Balanced (push x ∷ calls) h b = run-Balanced calls _ (back-Balanced x h b)
  run-Balanced (try_pop ∷ calls) h b = run-Balanced calls _ (pop-Balanced h b)
  run-Balanced (try_steal ∷ calls) h b =
      run-Balanced calls _ (steal-Balanced h (get_last? h.queue) refl b)
