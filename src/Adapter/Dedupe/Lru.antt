-- ===== src/Adapter/Dedupe/Lru.antt =====
-- internal/adapter/dedupe.go: the consistency of the cache, and its reading as a window of ids.
use peerbus.Prelude.{
  ℕ, zero, suc, ◌<◌, ◌≤◌, ◌≡◌, inl, inr, Text, same, Bool, true, false, List, [], ◌∷◌, some, length,
  ltb, arith, refl, sym, ap, if◌then◌else◌, Bool-cases,
}
use peerbus.Adapter.Dedupe.{Dedupe, contains, erase, back, drop_back, new_dedupe, seen, forget}

abbrev pub take : ℕ → List Text → List Text
take zero xs = []
take (suc n) [] = []
take (suc n) (x ∷ xs) = x ∷ take n xs

-- No id twice.
abbrev pub Distinct : List Text → Type 0
Distinct [] = Unit
Distinct (x ∷ xs) = (contains x xs ≡ false) × Distinct xs

-- The map has the ids of the list and no other, each once, and there are at most `max`.
pub record IsConsistent (d : Dedupe) : Type 0 where
  pub room : 0 < d.max
  pub bounded : length d.ll ≤ d.max
  pub distinct : Distinct d.ll
  pub keys : Distinct d.idx
  pub agree : (i : Text) → contains i d.idx ≡ contains i d.ll

pub contains-erase :
    (i j : Text) (xs : List Text)
    → Distinct xs
    → contains j (erase i xs) ≡ (if same i j then false else contains j xs)
unfolding contains erase
contains-erase i j [] u = ground arith
contains-erase i j (x ∷ xs) u = ground (arith, contains-erase i j xs u.1)

pub erase-Distinct : (i : Text) (xs : List Text) → Distinct xs → Distinct (erase i xs)
unfolding contains erase
erase-Distinct i [] u = tt
erase-Distinct i (x ∷ xs) u = ground (arith, contains-erase i x xs u.1, erase-Distinct i xs u.1)

pub length-erase :
    (i : Text) (xs : List Text) → contains i xs ≡ true → suc (length (erase i xs)) ≡ length xs
unfolding contains erase
length-erase i [] h = cc
length-erase i (x ∷ xs) h = ground (arith, length-erase i xs)

erase_absent : (i : Text) (xs : List Text) → contains i xs ≡ false → erase i xs ≡ xs
unfolding contains erase
erase_absent i [] h = refl
erase_absent i (x ∷ xs) h = ground (arith, erase_absent i xs)

take_all : (n : ℕ) (xs : List Text) → length xs ≤ n → take n xs ≡ xs
take_all zero [] h = refl
take_all zero (x ∷ xs) h = absurd (omega arith)
take_all (suc n) [] h = refl
take_all (suc n) (x ∷ xs) h = ap (◌∷◌ x) (take_all n xs (omega arith))

take-drop_back : (n : ℕ) (xs : List Text) → length xs ≡ suc n → take n xs ≡ drop_back xs
unfolding drop_back
take-drop_back n [] h = absurd (omega arith)
take-drop_back zero (x ∷ []) h = refl
take-drop_back zero (x ∷ y ∷ xs) h = absurd (omega arith)
take-drop_back (suc n) (x ∷ []) h = absurd (omega arith)
take-drop_back (suc n) (x ∷ y ∷ xs) h = ap (◌∷◌ x) (take-drop_back n (y ∷ xs) (omega arith))

back-cons : (x : Text) (xs : List Text) → (o : Text) × (back (x ∷ xs) ≡ some o)
unfolding back
back-cons x [] = (x, refl)
back-cons x (y ∷ xs) = let (o, e) = back-cons y xs in (o, ground arith)

contains-back : (o : Text) (xs : List Text) → back xs ≡ some o → contains o xs ≡ true
unfolding back contains
contains-back o [] e = cc
contains-back o (x ∷ xs) e = ground (arith, contains-back o xs)

back-cons_cons :
    (o x y : Text) (xs : List Text) → back (x ∷ y ∷ xs) ≡ some o → back (y ∷ xs) ≡ some o
unfolding back
back-cons_cons o x y xs e = ground arith

-- Dropping the last id erases it.
drop_back-erase :
    (o : Text) (xs : List Text) → Distinct xs → back xs ≡ some o → drop_back xs ≡ erase o xs
unfolding drop_back back erase contains
drop_back-erase o [] u e = cc
drop_back-erase o (x ∷ []) u e = ground arith
drop_back-erase o (x ∷ y ∷ xs) u e =
    let b = back-cons_cons o x y xs e in
    let ih : drop_back (y ∷ xs) ≡ erase o (y ∷ xs) = drop_back-erase o (y ∷ xs) u.1 b in
    let in_rest : contains o (y ∷ xs) ≡ true = contains-back o (y ∷ xs) b in ground arith

length-drop_back : (x : Text) (xs : List Text) → length (drop_back (x ∷ xs)) ≡ length xs
unfolding drop_back
length-drop_back x [] = refl
length-drop_back x (y ∷ xs) = ap suc (length-drop_back y xs)

seen-repeat :
    (id : Text) (d : Dedupe)
    → contains id d.idx ≡ true
    → seen id d ≡ (true, record d { ll = id ∷ erase id d.ll })
unfolding seen
seen-repeat id d h = ground arith

seen-room :
    (id : Text) (d : Dedupe)
    → contains id d.idx ≡ false
    → length d.ll < d.max
    → seen id d ≡ (false, record d { ll = id ∷ d.ll; idx = id ∷ d.idx })
unfolding seen
seen-room id d h r = ground arith

seen-full :
    (id o : Text) (d : Dedupe)
    → contains id d.idx ≡ false
    → length d.ll ≡ d.max
    → back (id ∷ d.ll) ≡ some o
    → seen id d ≡ (false, record d { ll = drop_back (id ∷ d.ll); idx = erase o (id ∷ d.idx) })
unfolding seen
seen-full id o d h r b = ground arith

-- The three ways of `seen` on a consistent cache.
pub seen_cases {ℓ} :
    (P : Bool × Dedupe → Type ℓ) (id : Text) (d : Dedupe)
    → IsConsistent d
    → (contains id d.ll ≡ true
        → contains id d.idx ≡ true
        → P (true, record d { ll = id ∷ erase id d.ll }))
    → (contains id d.ll ≡ false
        → contains id d.idx ≡ false
        → length d.ll < d.max
        → P (false, record d { ll = id ∷ d.ll; idx = id ∷ d.idx }))
    → ((o : Text)
        → contains id d.ll ≡ false
        → contains id d.idx ≡ false
        → length d.ll ≡ d.max
        → back (id ∷ d.ll) ≡ some o
        → P (false, record d { ll = drop_back (id ∷ d.ll); idx = erase o (id ∷ d.idx) }))
    → P (seen id d)
seen_cases P id d c repeat room full = elim (Bool-cases (contains id d.ll)) [
  | inl h ↦
      let k : contains id d.idx ≡ true = cc (c.agree id) in rw (seen-repeat id d k) (repeat h k)
  | inr h ↦
      let k : contains id d.idx ≡ false = cc (c.agree id) in
      elim (Bool-cases (ltb (length d.ll) d.max)) [
        | inl r ↦
            let less : length d.ll < d.max = ground arith in
            rw (seen-room id d k less) (room h k less)
        | inr r ↦
            let equal : length d.ll ≡ d.max = ground (arith, c.bounded) in
            let (o, b) = back-cons id d.ll in rw (seen-full id o d k equal b) (full o h k equal b)
      ]
]

-- On a consistent cache `seen` answers whether the id is among those kept, and keeps the first
-- `max` of the list with the id moved or put in front.
pub seen_lru :
    (id : Text) (d : Dedupe)
    → IsConsistent d
    → ((seen id d).0 ≡ contains id d.ll) × ((seen id d).1.ll ≡ take d.max (id ∷ erase id d.ll))
seen_lru id d c =
    seen_cases (λ r. (r.0 ≡ contains id d.ll) × (r.1.ll ≡ take d.max (id ∷ erase id d.ll))) id d c
      (λ h k. (sym h, sym (take_all d.max _ (omega (arith, length-erase id d.ll h, c.bounded)))))
      (λ h k r. (sym h, rw (erase_absent id d.ll h) (sym (take_all d.max (id ∷ d.ll) r))))
      (λ o h k r b.
        (sym h, rw (erase_absent id d.ll h) (sym (take-drop_back d.max (id ∷ d.ll) (omega arith)))))

-- `seen` keeps a consistent cache consistent: bounded, without repeats, the map in step with the list.
pub seen-IsConsistent : (id : Text) (d : Dedupe) → IsConsistent d → IsConsistent (seen id d).1
unfolding contains
seen-IsConsistent id d c =
    seen_cases (λ r. IsConsistent r.1) id d c
      (λ h k. record {
        room = c.room;
        bounded = omega (arith, length-erase id d.ll h, c.bounded);
        distinct = (
          ground (arith, contains-erase id id d.ll c.distinct),
          erase-Distinct id d.ll c.distinct,
        );
        keys = c.keys;
        agree = λ i. ground (arith, c.agree i, contains-erase id i d.ll c.distinct);
      })
      (λ h k r. record {
        room = c.room;
        bounded = omega arith;
        distinct = (h, c.distinct);
        keys = (k, c.keys);
        agree = λ i. ground (arith, c.agree i);
      })
      (λ o h k r b.
        let dropped = drop_back-erase o (id ∷ d.ll) (h, c.distinct) b in
        record {
          room = c.room;
          bounded = omega (arith, length-drop_back id d.ll);
          distinct = rw dropped (erase-Distinct o (id ∷ d.ll) (h, c.distinct));
          keys = erase-Distinct o (id ∷ d.idx) (k, c.keys);
          agree = λ i. rw dropped (
              ground (
                arith,
                c.agree i,
                contains-erase o i (id ∷ d.ll) (h, c.distinct),
                contains-erase o i (id ∷ d.idx) (k, c.keys),
              ));
        })

pub forget-IsConsistent : (id : Text) (d : Dedupe) → IsConsistent d → IsConsistent (forget id d)
unfolding forget
forget-IsConsistent id d c = elim (Bool-cases (contains id d.idx)) [
  | inr h ↦ rw (h, forget) c
  | inl h ↦
      let k : contains id d.ll ≡ true = cc (c.agree id) in
      rw (h, forget)
        (record {
          room = c.room;
          bounded = omega (arith, length-erase id d.ll k, c.bounded);
          distinct = erase-Distinct id d.ll c.distinct;
          keys = erase-Distinct id d.idx c.keys;
          agree = λ i. ground (
            arith,
            c.agree i,
            contains-erase id i d.ll c.distinct,
            contains-erase id i d.idx c.keys,
          );
        })
]

-- After a failed consumption the id counts as new.
pub contains-forget :
    (id : Text) (d : Dedupe) → IsConsistent d → contains id (forget id d).ll ≡ false
unfolding forget
contains-forget id d c = ground (arith, c.agree id, contains-erase id id d.ll c.distinct)

pub new_dedupe-IsConsistent : (size : ℕ) → IsConsistent (new_dedupe size)
unfolding new_dedupe
new_dedupe-IsConsistent size = record {
  room = ground arith;
  bounded = omega arith;
  distinct = tt;
  keys = tt;
  agree = λ i. refl;
}
