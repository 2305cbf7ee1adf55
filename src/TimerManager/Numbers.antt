-- ===== src/TimerManager/Numbers.antt =====
-- The search of hikyuu/utilities/TimerManager.h for the number of a new timer.
use hku_utils.Base.{
  ℕ, zero, suc, ◌+◌, ◌%◌, ◌≤◌, ◌<◌, ◌≡◌, ◌≢◌, List, Option, none, some, arith, length, ℕ_discrete,
  Perm-length, ◌⊎◌, inl, inr, dec_lt, Option-cases, length-map,
}
use hku_utils.Base.Assoc.{keys, mem_of_lookup}
use mathlib.Core.List.{lookup, Mem, erase, perm_cons_erase, mem-erase_of_ne}
use hku_utils.TimerManager.{
  Timer, TimerManager, max_int, next_id, free_id, id_after, get_new_timer_id,
}

-- n different members make a list at least n long.
pub distinct-length :
    (f : ℕ → ℕ) (n : ℕ) (l : List ℕ)
    → ((i j : ℕ) → i < n → j < n → f i ≡ f j → i ≡ j)
    → ((k : ℕ) → k < n → Mem (f k) l)
    → n ≤ length l
distinct-length f zero l inj all = omega arith
distinct-length f (suc n) l inj all =
    let here = all n (omega arith) in
    let apart : (k : ℕ) → k < n → f k ≢ f n =
      λ k h e. let q : k ≡ n = inj k n (omega arith) (omega arith) e in omega arith in
    let rest =
      distinct-length f n (erase ℕ_discrete l (f n))
        (λ i j h₁ h₂ e. inj i j (omega arith) (omega arith) e)
        (λ k h. (mem-erase_of_ne ℕ_discrete (apart k h)).1 (all k (omega arith))) in
    let longer = Perm-length (perm_cons_erase ℕ_discrete here) in omega arith

-- The number that the search looks at after k rounds.
abbrev visited : ℕ → ℕ → ℕ
visited id k = (id + k) % (max_int + 1)

visited_next : (id k : ℕ) → id ≤ max_int → visited (next_id id) k ≡ visited id (suc k)
unfolding next_id
visited_next id k h = ground arith

visited_zero : (id : ℕ) → id ≤ max_int → visited id 0 ≡ id
visited_zero id h = omega arith

next_id-le : (id : ℕ) → next_id id ≤ max_int
unfolding next_id
next_id-le id = ground arith

id_after-le : (o : Option ℕ) → id_after o ≤ max_int
id_after-le none = omega arith
id_after-le (some id) = next_id-le id

visited_injective :
    (id n i j : ℕ)
    → id ≤ max_int
    → n ≤ max_int
    → i < n
    → j < n
    → visited id i ≡ visited id j
    → i ≡ j
visited_injective id n i j h₁ h₂ h₃ h₄ e = omega arith

module _ {F : Type 0} where
  visited_all :
      (timers : List (ℕ × Timer F)) (rounds id : ℕ)
      → id ≤ max_int
      → Mem id (keys timers)
      → ((k : ℕ) → k < rounds → Mem (visited (next_id id) k) (keys timers))
      → (k : ℕ) → k < suc rounds
      → Mem (visited id k) (keys timers)
  visited_all timers rounds id h here all zero b = rw (visited_zero id h) here
  visited_all timers rounds id h here all (suc k) b =
      rw (← visited_next id k h) (all k (omega arith))

  -- A search ends with a free number, or all that it looked at are in use.
  free_id-cases :
      (timers : List (ℕ × Timer F)) (rounds id : ℕ)
      → id ≤ max_int
      → ((r : ℕ) × (free_id timers rounds id ≡ some r)
          × (lookup ℕ_discrete r timers ≡ none)
          × (r ≤ max_int))
        ⊎ ((k : ℕ) → k < rounds → Mem (visited id k) (keys timers))
  unfolding free_id
  free_id-cases timers zero id h = inr (λ k b. absurd (omega arith))
  free_id-cases timers (suc rounds) id h = elim (Option-cases (lookup ℕ_discrete id timers)) [
    | inl free ↦ inl (id, rw (free_id, free), free, h)
    | inr (timer, used) ↦ elim (free_id-cases timers rounds (next_id id) (next_id-le id)) [
      | inl (r, e, free, le) ↦ inl (r, rw (free_id, used) e, free, le)
      | inr all ↦
          inr (visited_all timers rounds id h (mem_of_lookup ℕ_discrete id timers timer used) all)
    ]
  ]

  crowded :
      (timers : List (ℕ × Timer F)) (id : ℕ)
      → length timers < max_int
      → id ≤ max_int
      → ¬ ((k : ℕ) → k < length timers + 1 → Mem (visited id k) (keys timers))
  crowded timers id room h all =
      let n = length timers + 1 in
      let long =
        distinct-length (visited id) n (keys timers)
          (λ i j h₁ h₂ e. visited_injective id n i j h (omega arith) h₁ h₂ e) all in
      let same = length-map (λ e. e.0) timers in omega arith

  found :
      (m : TimerManager F) (id : ℕ)
      → free_id m.timers (length m.timers + 1) (id_after m.current_timer_id) ≡ some id
      → length m.timers < max_int
      → get_new_timer_id m ≡ some (some id)
  unfolding get_new_timer_id
  found m id e room = rw (e) (ground arith)

  -- With fewer timers than the largest `int` the search for a number ends, with one between 0 and the largest
  -- `int` that no timer has; with as many or more the result is -1.
  pub get_new_timer_id-ends :
      (m : TimerManager F)
      → ((length m.timers < max_int)
          × (id : ℕ) × (get_new_timer_id m ≡ some (some id))
          × (lookup ℕ_discrete id m.timers ≡ none)
          × (id ≤ max_int))
        ⊎ ((max_int ≤ length m.timers) × (get_new_timer_id m ≡ some none))
  unfolding get_new_timer_id
  get_new_timer_id-ends m =
      let start = id_after m.current_timer_id in
      let n = length m.timers in
      elim (dec_lt n max_int) [
        | no full ↦ inr (omega arith, ground arith)
        | yes room ↦ elim (free_id-cases m.timers (n + 1) start (id_after-le m.current_timer_id)) [
          | inl (id, e, free, le) ↦ inl (room, id, found m id e room, free, le)
          | inr all ↦ absurd (crowded m.timers start room (id_after-le m.current_timer_id) all)
        ]
      ]
