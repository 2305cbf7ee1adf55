-- ===== src/ConnectPool/Waits.antt =====
-- How getAndWait of hikyuu/utilities/ConnectPool.h ends.
use hku_utils.Base.{
  ℕ, zero, suc, ◌+◌, ◌≤◌, ◌≡◌, refl, List, [], ◌∷◌, Option, none, some, true, ◌&&◌, leb, ltb, arith,
  Bool-cases, inl, inr, ◌⊎◌,
}
use hku_utils.Base.Int.{ℤ}
use hku_utils.ConnectPool.{
  ConnectPool, Outcome, got, null_ptr, terminated, timed_out, waiting, get_from, get_connect,
  create, time_out, wait_rounds, get_and_wait, max_rounds, has_timeout,
}

-- The loop has ended with a connection, with the exception or with the end of the program.
pub data Ended : Outcome → Type 0 where
  with_connection : (c : ℕ) → Ended (got c)
  with_exception : Ended timed_out
  with_termination : Ended terminated

-- A request answers with a connection, a null pointer or the end of the program.
pub data Answer : Outcome → Type 0 where
  connection : (c : ℕ) → Answer (got c)
  nothing : Answer null_ptr
  termination : Answer terminated

create-Answer : (fresh : Option ℕ) (p : ConnectPool) → Answer (create fresh p).0
unfolding create
create-Answer none p = termination
create-Answer (some c) p = connection c

get_from-Answer : (fresh : Option ℕ) (l : List ℕ) (p : ConnectPool) → Answer (get_from fresh l p).0
unfolding get_from
get_from-Answer fresh [] p =
    elim (Bool-cases (ltb 0 p.max_connect_size && leb p.max_connect_size p.count)) [
      | inl e ↦ rw (e) nothing
      | inr e ↦ rw (e) (create-Answer fresh p)
    ]
get_from-Answer fresh (c ∷ rest) p = connection c

get_connect-Answer : (fresh : Option ℕ) (p : ConnectPool) → Answer (get_connect fresh p).0
unfolding get_connect
get_connect-Answer fresh p = get_from-Answer fresh p.connect_list p

time_out-Ended : (r : Outcome × ConnectPool) → Answer r.0 → Ended (time_out r).0
unfolding time_out
time_out-Ended (got _, p) (connection c) = with_exception
time_out-Ended (null_ptr, p) nothing = with_exception
time_out-Ended (terminated, p) termination = with_termination
time_out-Ended (timed_out, p) a = elim a [ ]
time_out-Ended (waiting, p) a = elim a [ ]

time_out-cases :
    (r : Outcome × ConnectPool)
    → Answer r.0
    → ((time_out r).0 ≡ timed_out) ⊎ ((time_out r).0 ≡ terminated)
unfolding time_out
time_out-cases (got _, p) (connection c) = inl refl
time_out-cases (null_ptr, p) nothing = inl refl
time_out-cases (terminated, p) termination = inr refl
time_out-cases (timed_out, p) a = elim a [ ]
time_out-cases (waiting, p) a = elim a [ ]

-- What a loop answers with an answer, where it goes on with `rest` after a null pointer.
abbrev go_on : Outcome × ConnectPool → Outcome × ConnectPool → Outcome × ConnectPool
go_on r rest = elim r.0 [
  | got c ↦ r
  | null_ptr ↦ rest
  | terminated ↦ r
  | timed_out ↦ r
  | waiting ↦ r
]

go_on-Ended : (r rest : Outcome × ConnectPool) → Answer r.0 → Ended rest.0 → Ended (go_on r rest).0
go_on-Ended (got _, p) rest (connection c) e = with_connection c
go_on-Ended (null_ptr, p) rest nothing e = e
go_on-Ended (terminated, p) rest termination e = with_termination
go_on-Ended (timed_out, p) rest a e = elim a [ ]
go_on-Ended (waiting, p) rest a e = elim a [ ]

go_on-null : (r rest : Outcome × ConnectPool) → r.0 ≡ null_ptr → go_on r rest ≡ rest
go_on-null (got c, p) rest e = cc
go_on-null (null_ptr, p) rest e = refl
go_on-null (terminated, p) rest e = cc
go_on-null (timed_out, p) rest e = cc
go_on-null (waiting, p) rest e = cc

module _ (others : ℕ → ConnectPool → ConnectPool) (fresh : ℕ → Option ℕ) where
  wait_rounds-ends :
      (timeout : ℤ) (rounds k : ℕ) (p : ConnectPool)
      → has_timeout timeout ≡ true
      → k ≤ max_rounds timeout
      → max_rounds timeout + 1 ≤ k + rounds
      → Ended (wait_rounds others fresh timeout rounds k p).0
  unfolding wait_rounds
  wait_rounds-ends timeout zero k p t h₁ h₂ = absurd (omega arith)
  wait_rounds-ends timeout (suc rounds) k p t h₁ h₂ =
      let r = get_connect (fresh k) (others k p) in
      let a = get_connect-Answer (fresh k) (others k p) in
      elim (Bool-cases (ltb k (max_rounds timeout))) [
        | inl e ↦
            rw (t, e)
              (go_on-Ended r (wait_rounds others fresh timeout rounds (k + 1) r.1) a
                (wait_rounds-ends timeout rounds (k + 1) r.1 t (ground arith) (omega arith)))
        | inr e ↦ rw (t, e) (time_out-Ended r a)
      ]

  -- Whatever the other threads do, getAndWait with a positive timeout ends by the round that follows
  -- timeout / 100 rounds, with a connection, with its exception or, where a `new` throws, with the program.
  pub get_and_wait-ends :
      (first : Option ℕ) (timeout : ℤ) (rounds : ℕ) (p : ConnectPool)
      → has_timeout timeout ≡ true
      → max_rounds timeout + 1 ≤ rounds
      → Ended (get_and_wait others fresh first timeout rounds p).0
  unfolding get_and_wait
  get_and_wait-ends first timeout rounds p t h =
      let r = get_connect first p in
      go_on-Ended r (wait_rounds others fresh timeout rounds 0 r.1) (get_connect-Answer first p)
        (wait_rounds-ends timeout rounds 0 r.1 t (omega arith) (omega arith))

  -- With a timeout of less than 100 milliseconds, getAndWait that finds no connection at once ends with its
  -- exception, also where its next request gets one, unless a `new` throws.
  pub get_and_wait-short_timeout :
      (first : Option ℕ) (timeout : ℤ) (rounds : ℕ) (p : ConnectPool)
      → has_timeout timeout ≡ true
      → max_rounds timeout ≡ 0
      → (get_connect first p).0 ≡ null_ptr
      → 1 ≤ rounds
      → let r = get_and_wait others fresh first timeout rounds p in
        (r.0 ≡ timed_out) ⊎ (r.0 ≡ terminated)
  unfolding get_and_wait wait_rounds
  get_and_wait-short_timeout first timeout zero p t h e l = absurd (omega arith)
  get_and_wait-short_timeout first timeout (suc rounds) p t h e l =
      let q = (get_connect first p).1 in
      let again : get_and_wait others fresh first timeout (suc rounds) p
          ≡ wait_rounds others fresh timeout (suc rounds) 0 q =
        go_on-null (get_connect first p) (wait_rounds others fresh timeout (suc rounds) 0 q) e in
      rw (again, t, h)
        (time_out-cases (get_connect (fresh 0) (others 0 q))
          (get_connect-Answer (fresh 0) (others 0 q)))
