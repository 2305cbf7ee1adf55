-- ===== src/Tests/ConnectRuns.antt =====
-- The theorems on hikyuu/utilities/ConnectPool.h at a pool of one connection.
use hku_utils.Base.{ℕ, ◌≡◌, refl, [], ◌∷◌, none, arith, ◌⊎◌}
use hku_utils.Base.Int.{pos}
use hku_utils.ConnectPool.{
  ConnectPool, null_ptr, timed_out, terminated, init, get_connect, get_and_wait, close, get_from,
  wait_rounds, time_out, return_driver, hand_out,
}
use hku_utils.ConnectPool.Limits.{get, end, release, run, Counted, run-init-Counted}
use hku_utils.ConnectPool.Waits.{Ended, get_and_wait-ends, get_and_wait-short_timeout}

run-init-Counted_example :
    Counted 1 (run (get 40 ∷ get 50 ∷ end 0 ∷ get 60 ∷ release ∷ []) (init 1 2))
run-init-Counted_example =
    run-init-Counted 1 2 (get 40 ∷ get 50 ∷ end 0 ∷ get 60 ∷ release ∷ []) (omega arith)

-- The only connection is in use.
abbrev exhausted : ConnectPool
exhausted = record {
  max_connect_size = 1;
  max_idle_size = 2;
  count = 1;
  connect_list = [];
  held = 40 ∷ [];
}

-- The other threads give it back.
abbrev give_back : ℕ → ConnectPool → ConnectPool
give_back k p = close 0 p

nothing_free : (get_connect none exhausted).0 ≡ null_ptr
unfolding get_connect get_from
nothing_free = refl

get_and_wait-ends_example : Ended (get_and_wait give_back (λ k. none) none (pos 250) 3 exhausted).0
get_and_wait-ends_example =
    get_and_wait-ends give_back (λ k. none) none (pos 250) 3 exhausted refl (omega arith)

get_and_wait-short_timeout_example :
    ((get_and_wait give_back (λ k. none) none (pos 50) 1 exhausted).0 ≡ timed_out)
    ⊎ ((get_and_wait give_back (λ k. none) none (pos 50) 1 exhausted).0 ≡ terminated)
get_and_wait-short_timeout_example =
    get_and_wait-short_timeout give_back (λ k. none) none (pos 50) 1 exhausted refl refl
      nothing_free (omega arith)

-- The connection that the request in the first round got is idle again.
given_up : (get_and_wait give_back (λ k. none) none (pos 50) 1 exhausted).1.connect_list ≡ 40 ∷ []
unfolding get_and_wait wait_rounds time_out get_connect get_from close return_driver hand_out
given_up = refl
