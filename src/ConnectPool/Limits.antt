-- ===== src/ConnectPool/Limits.antt =====
-- The number of connections of hikyuu/utilities/ConnectPool.h.
use hku_utils.Base.{
  ℕ, ◌+◌, ◌%◌, ◌≤◌, ◌<◌, ◌≡◌, refl, ap, ◌∙◌, List, [], ◌∷◌, some, false, ◌&&◌, get_elem?, erase_idx,
  length, length-append, leb, ltb, u64_mod, arith, Bool-cases, Option-cases, inl, inr, ◌⊎◌,
  Perm-length, erase_idx-perm,
}
use hku_utils.ConnectPool.{
  ConnectPool, init, create, hand_out, get_from, get_connect, return_driver, close, release_list,
  release_idle_connect, one_less,
}

-- The connections that exist, idle or in use.
abbrev pub alive : ConnectPool → ℕ
alive p = length p.connect_list + length p.held

-- The counter is the number of connections, which is within the limit if there is one.
pub record Counted (limit : ℕ) (p : ConnectPool) : Type 0 where
  pub limited : p.max_connect_size ≡ limit
  pub counted : p.count ≡ alive p % u64_mod
  pub bounded : (p.max_connect_size ≡ 0) ⊎ (alive p ≤ p.max_connect_size)
  pub small : p.max_connect_size < u64_mod

return_driver-Counted :
    (limit c : ℕ) (p : ConnectPool)
    → p.count ≡ (alive p + 1) % u64_mod
    → (p.max_connect_size ≡ 0) ⊎ (alive p + 1 ≤ p.max_connect_size)
    → p.max_connect_size < u64_mod
    → p.max_connect_size ≡ limit
    → Counted limit (return_driver c p)
unfolding return_driver
return_driver-Counted limit c p e b s l =
    elim (Bool-cases (ltb (length p.connect_list) p.max_idle_size)) [
      | inl h ↦ rw (h) (record {
        counted = e ∙ ap (λ n. n % u64_mod) (omega (arith, length-append p.connect_list (c ∷ [])));
        bounded = elim b [
          | inl z ↦ inl z
          | inr le ↦ inr (omega (arith, length-append p.connect_list (c ∷ [])))
        ];
        small = s;
        limited = l;
      })
      | inr h ↦ rw (h) (record {
        counted = rw (e) (omega arith);
        bounded = elim b [ inl z ↦ inl z | inr le ↦ inr (omega arith) ];
        small = s;
        limited = l;
      })
    ]

held_erased :
    (l : List ℕ) (i c : ℕ) → get_elem? l i ≡ some c → length l ≡ length (erase_idx l i) + 1
held_erased l i c e = omega (arith, Perm-length (erase_idx-perm l i c e))

pub close-Counted :
    (limit : ℕ) (i : ℕ) (p : ConnectPool) → Counted limit p → Counted limit (close i p)
unfolding close
close-Counted limit i p v = elim (Option-cases (get_elem? p.held i)) [
  | inl e ↦ rw (close, e) v
  | inr (c, e) ↦
      rw (close, e)
        (return_driver-Counted limit c (record p { held = erase_idx p.held i })
          (v.counted ∙ ap (λ n. n % u64_mod) (omega (arith, held_erased p.held i c e)))
          (elim v.bounded [
            | inl z ↦ inl z
            | inr le ↦ inr (omega (arith, held_erased p.held i c e))
          ])
          v.small v.limited)
]

hand_out-Counted :
    (limit : ℕ) (c : ℕ) (rest : List ℕ) (p : ConnectPool)
    → p.connect_list ≡ c ∷ rest
    → Counted limit p
    → Counted limit (hand_out c rest p)
unfolding hand_out
hand_out-Counted limit c rest p e v =
    let n : length p.connect_list ≡ length rest + 1 = ap (λ l. length l) e ∙ omega arith in
    record {
      counted = v.counted ∙ ap (λ n. n % u64_mod) (omega arith);
      bounded = elim v.bounded [ inl z ↦ inl z | inr le ↦ inr (omega arith) ];
      small = v.small;
      limited = v.limited;
    }

below_limit :
    (limit count n : ℕ)
    → count ≡ n % u64_mod
    → n ≤ limit
    → limit < u64_mod
    → (ltb 0 limit && leb limit count) ≡ false
    → (limit ≡ 0) ⊎ (n + 1 ≤ limit)
below_limit limit count n e le s h = ground arith

create-Counted :
    (limit : ℕ) (c : ℕ) (p : ConnectPool)
    → (ltb 0 p.max_connect_size && leb p.max_connect_size p.count) ≡ false
    → Counted limit p
    → Counted limit (create (some c) p).1
unfolding create
create-Counted limit c p h v = record {
  counted = rw (v.counted) (omega arith);
  bounded = elim v.bounded [
    | inl z ↦ inl z
    | inr le ↦ elim (below_limit p.max_connect_size p.count (alive p) v.counted le v.small h) [
      | inl z ↦ inl z
      | inr lt ↦ inr (omega arith)
    ]
  ];
  small = v.small;
  limited = v.limited;
}

get_from-Counted :
    (limit : ℕ) (c : ℕ) (l : List ℕ) (p : ConnectPool)
    → p.connect_list ≡ l
    → Counted limit p
    → Counted limit (get_from (some c) l p).1
unfolding get_from
get_from-Counted limit c [] p e v =
    elim (Bool-cases (ltb 0 p.max_connect_size && leb p.max_connect_size p.count)) [
      | inl h ↦ rw (h) v
      | inr h ↦ rw (h) (create-Counted limit c p h v)
    ]
get_from-Counted limit c (d ∷ rest) p e v = hand_out-Counted limit d rest p e v

release_list-Counted :
    (limit : ℕ) (l : List ℕ) (p : ConnectPool)
    → p.connect_list ≡ l
    → Counted limit p
    → Counted limit (release_list l p)
unfolding release_list
release_list-Counted limit [] p e v = v
release_list-Counted limit (c ∷ rest) p e v =
    let n : length p.connect_list ≡ length rest + 1 = ap (λ l. length l) e ∙ omega arith in
    release_list-Counted limit rest (record p { connect_list = rest; count = one_less p.count })
      refl
      (record {
        counted = rw (v.counted, n) (omega arith);
        bounded = elim v.bounded [ inl z ↦ inl z | inr le ↦ inr (omega arith) ];
        small = v.small;
        limited = v.limited;
      })

-- A call of a user: a request whose `new` gives the address, the end of a pointer, or releaseIdleConnect.
pub data Call : Type 0 where
  get : ℕ → Call
  end : ℕ → Call
  release : Call

unfoldable pub step : Call → ConnectPool → ConnectPool
step (get c) p = (get_connect (some c) p).1
step (end i) p = close i p
step release p = release_idle_connect p

unfoldable pub run : List Call → ConnectPool → ConnectPool
run [] p = p
run (c ∷ calls) p = run calls (step c p)

step-Counted : (limit : ℕ) (c : Call) (p : ConnectPool) → Counted limit p → Counted limit (step c p)
unfolding step get_connect release_idle_connect
step-Counted limit (get c) p v = get_from-Counted limit c p.connect_list p refl v
step-Counted limit (end i) p v = close-Counted limit i p v
step-Counted limit release p v = release_list-Counted limit p.connect_list p refl v

run-Counted :
    (limit : ℕ) (calls : List Call) (p : ConnectPool)
    → Counted limit p
    → Counted limit (run calls p)
unfolding run
run-Counted limit [] p v = v
run-Counted limit (c ∷ calls) p v = run-Counted limit calls (step c p) (step-Counted limit c p v)

-- After any calls on a new pool the counter is the number of connections that are idle or in use, modulo
-- 2 ^ 64, and with a limit there are at most so many.
pub run-init-Counted :
    (max_connect max_idle_connect : ℕ) (calls : List Call)
    → max_connect < u64_mod
    → Counted max_connect (run calls (init max_connect max_idle_connect))
unfolding init
run-init-Counted max_connect max_idle_connect calls s =
    run-Counted max_connect calls (init max_connect max_idle_connect)
      (record { counted = refl; bounded = inr (omega arith); small = s; limited = refl })
