-- ===== src/Ethtypes/Logs/Matching.antt =====
-- The compiled filter of lib/ethtypes/logs.go against the rule that lib/ethtypes/filter.go states
-- for topics, which the code follows up to the last position with an alternative.
use venn.Prelude.{◌≡◌, refl, ◌↔◌, ◌⊎◌, true, false, ◌&&◌, ◌||◌, List, [], ◌∷◌, arith, inl, inr}
use venn.Ethtypes.Logs.{
  has, put, put_all, is_empty, LogAddressTopics, topic_sets, compile_filter, check_topics, check,
}

abbrev pub In : {A : Type 0} → A → List A → Type 0
In x [] = ⊥
In x (y ∷ s) = (y ≡ x) ⊎ In x s

-- No alternative is given, or the value is one of them.
abbrev pub Allows : {A : Type 0} → List A → A → Type 0
Allows xs x = (xs ≡ []) ⊎ In x xs

-- The rule as it is stated: the filter matches a prefix of the topics of the log, so there is a topic at each
-- of its positions, which any is where no alternative is given.
abbrev pub MatchesPrefix : {H : Type 0} → List (List H) → List H → Type 0
MatchesPrefix [] log_topics = Unit
MatchesPrefix (alternatives ∷ rest) [] = ⊥
MatchesPrefix (alternatives ∷ rest) (t ∷ log_topics) =
    Allows alternatives t × MatchesPrefix rest log_topics

abbrev kept : {H : Type 0} → List H → List (List H) → List (List H)
kept [] [] = []
kept [] (x ∷ rest) = [] ∷ (x ∷ rest)
kept (x ∷ alternatives) rest = (x ∷ alternatives) ∷ rest

-- The filter up to its last position with an alternative.
abbrev pub constrained : {H : Type 0} → List (List H) → List (List H)
constrained [] = []
constrained (alternatives ∷ rest) = kept alternatives (constrained rest)

-- What the loop of `Check` decides, position by position.
abbrev TopicsMatch : {H : Type 0} → List (List H) → List H → Type 0
TopicsMatch [] log_topics = Unit
TopicsMatch ([] ∷ rest) [] = TopicsMatch rest []
TopicsMatch ([] ∷ rest) (t ∷ log_topics) = TopicsMatch rest log_topics
TopicsMatch ((x ∷ xs) ∷ rest) [] = ⊥
TopicsMatch ((x ∷ xs) ∷ rest) (t ∷ log_topics) = In t (x ∷ xs) × TopicsMatch rest log_topics

module _ {H : Type 0} where
  kept-cons :
      (rest : List (List H)) (t : H) (ts : List H)
      → MatchesPrefix (kept [] rest) (t ∷ ts) ↔ MatchesPrefix rest ts
  kept-cons [] t ts = (λ h. tt, λ h. tt)
  kept-cons (x ∷ rest) t ts = (λ h. h.1, λ h. (inl refl, h))

  kept-nil : (rest : List (List H)) → MatchesPrefix (kept [] rest) [] ↔ MatchesPrefix rest []
  kept-nil [] = (λ h. tt, λ h. tt)
  kept-nil (x ∷ rest) = (λ h. h, λ h. h)

  TopicsMatch-MatchesPrefix :
      (topics : List (List H)) (ts : List H)
      → TopicsMatch topics ts ↔ MatchesPrefix (constrained topics) ts
  TopicsMatch-MatchesPrefix [] ts = (λ h. tt, λ h. tt)
  TopicsMatch-MatchesPrefix ([] ∷ rest) [] =
      let (to, back) = TopicsMatch-MatchesPrefix rest [] in
      let (lower, lift) = kept-nil (constrained rest) in (λ h. lift (to h), λ h. back (lower h))
  TopicsMatch-MatchesPrefix ([] ∷ rest) (t ∷ ts) =
      let (to, back) = TopicsMatch-MatchesPrefix rest ts in
      let (lower, lift) = kept-cons (constrained rest) t ts in
      (λ h. lift (to h), λ h. back (lower h))
  TopicsMatch-MatchesPrefix ((x ∷ xs) ∷ rest) [] = (λ h. h, λ h. h)
  TopicsMatch-MatchesPrefix ((x ∷ xs) ∷ rest) (t ∷ ts) =
      let (to, back) = TopicsMatch-MatchesPrefix rest ts in
      (
        λ (i, h). (inr i, to h),
        λ (a, h). (elim a [ inl e ↦ absurd (ground (arith, e)) | inr i ↦ i ], back h),
      )

module _ {A : Type 0} (dec : Discrete A) where
  has_iff : (x : A) (s : List A) → (has dec x s ≡ true) ↔ In x s
  unfolding has
  has_iff x [] = (λ h. cc, λ h. absurd h)
  has_iff x (y ∷ s) = ground (arith, has_iff x s)

  has-put :
      (x y : A) (s : List A) → (has dec x (put dec y s) ≡ true) ↔ ((y ≡ x) ⊎ (has dec x s ≡ true))
  unfolding put
  has-put x y s = ground arith

  has-put_all :
      (x : A) (xs s : List A)
      → (has dec x (put_all dec xs s) ≡ true) ↔ (In x xs ⊎ (has dec x s ≡ true))
  unfolding put_all
  has-put_all x [] s = ground arith
  has-put_all x (y ∷ xs) s = ground (arith, has-put_all x xs (put dec y s), has-put x y s)

  -- The set of a list has the members of the list.
  has-set : (x : A) (xs : List A) → (has dec x (put_all dec xs []) ≡ true) ↔ In x xs
  has-set x xs = ground (arith, has-put_all x xs [], has_iff x [])

  is_empty-put : (x : A) (s : List A) → is_empty (put dec x s) ≡ false
  unfolding put
  is_empty-put x [] = refl
  is_empty-put x (y ∷ s) = ground arith

  is_empty-put_all : (xs s : List A) → is_empty s ≡ false → is_empty (put_all dec xs s) ≡ false
  unfolding put_all
  is_empty-put_all [] s h = h
  is_empty-put_all (x ∷ xs) s h = is_empty-put_all xs (put dec x s) (is_empty-put x s)

  is_empty-set : (xs : List A) → is_empty (put_all dec xs []) ≡ is_empty xs
  unfolding put_all
  is_empty-set [] = refl
  is_empty-set (x ∷ xs) = is_empty-put_all xs (put dec x []) (is_empty-put x [])

module _ {A H : Type 0} (dec_a : Discrete A) (dec_h : Discrete H) where
  check_topics-end : (ts : List H) → check_topics dec_a dec_h [] ts ≡ true
  unfolding check_topics
  check_topics-end ts = refl

  check_topics-cons :
      (set : List H) (sets : List (List H)) (t : H) (ts : List H)
      → check_topics dec_a dec_h (set ∷ sets) (t ∷ ts)
        ≡ (is_empty set || has dec_h t set) && check_topics dec_a dec_h sets ts
  unfolding check_topics
  check_topics-cons [] sets t ts = refl
  check_topics-cons (x ∷ set) sets t ts = ground arith

  check_topics-nil :
      (set : List H) (sets : List (List H))
      → check_topics dec_a dec_h (set ∷ sets) [] ≡ is_empty set && check_topics dec_a dec_h sets []
  unfolding check_topics
  check_topics-nil [] sets = refl
  check_topics-nil (x ∷ set) sets = refl

  check_topics_iff :
      (topics : List (List H)) (log_topics : List H)
      → (check_topics dec_a dec_h (topic_sets dec_a dec_h topics) log_topics ≡ true)
        ↔ TopicsMatch topics log_topics
  unfolding topic_sets
  check_topics_iff [] ts = (λ h. tt, λ h. check_topics-end ts)
  check_topics_iff ([] ∷ topics) [] = ground (
    arith,
    check_topics-nil (put_all dec_h [] []) (topic_sets dec_a dec_h topics),
    is_empty-set dec_h [],
    check_topics_iff topics [],
  )
  check_topics_iff ([] ∷ topics) (t ∷ ts) = ground (
    arith,
    check_topics-cons (put_all dec_h [] []) (topic_sets dec_a dec_h topics) t ts,
    is_empty-set dec_h [],
    check_topics_iff topics ts,
  )
  check_topics_iff ((x ∷ xs) ∷ topics) [] = ground (
    arith,
    check_topics-nil (put_all dec_h (x ∷ xs) []) (topic_sets dec_a dec_h topics),
    is_empty-set dec_h (x ∷ xs),
  )
  check_topics_iff ((x ∷ xs) ∷ topics) (t ∷ ts) = ground (
    arith,
    check_topics-cons (put_all dec_h (x ∷ xs) []) (topic_sets dec_a dec_h topics) t ts,
    is_empty-set dec_h (x ∷ xs),
    has-set dec_h t (x ∷ xs),
    check_topics_iff topics ts,
  )

  check-some :
      (x : A) (addresses : List A) (topics : List (List H)) (l : LogAddressTopics A H)
      → (check dec_a dec_h (compile_filter dec_a dec_h (x ∷ addresses) topics) l ≡ true)
        ↔ (In l.address (x ∷ addresses) × TopicsMatch topics l.topics)
  unfolding check compile_filter
  check-some x addresses topics l = ground (
    arith,
    is_empty-set dec_a (x ∷ addresses),
    has-set dec_a l.address (x ∷ addresses),
    check_topics_iff topics l.topics,
  )

  check-none :
      (topics : List (List H)) (l : LogAddressTopics A H)
      → (check dec_a dec_h (compile_filter dec_a dec_h [] topics) l ≡ true)
        ↔ TopicsMatch topics l.topics
  unfolding check compile_filter
  check-none [] l = (λ h. tt, λ h. refl)
  check-none (v ∷ topics) l =
      ground (arith, is_empty-set dec_a [], check_topics_iff (v ∷ topics) l.topics)

  -- A log passes the compiled filter exactly if its address is one of the filter's, where the filter
  -- names any, and the part of the filter up to its last position with an alternative matches a prefix
  -- of the log's topics: positions without one at the end ask for no topic, and those before do.
  pub check-compile_iff :
      (addresses : List A) (topics : List (List H)) (l : LogAddressTopics A H)
      → (check dec_a dec_h (compile_filter dec_a dec_h addresses topics) l ≡ true)
        ↔ (Allows addresses l.address × MatchesPrefix (constrained topics) l.topics)
  check-compile_iff [] topics l =
      let (to, back) = TopicsMatch-MatchesPrefix topics l.topics in
      let (passes, lets) = check-none topics l in
      (λ h. (inl refl, to (passes h)), λ (a, h). lets (back h))
  check-compile_iff (x ∷ addresses) topics l =
      let (to, back) = TopicsMatch-MatchesPrefix topics l.topics in
      let (passes, lets) = check-some x addresses topics l in
      (
        λ h. (inr (passes h).0, to (passes h).1),
        λ (a, h). lets (elim a [ inl e ↦ absurd (ground (arith, e)) | inr i ↦ i ], back h),
      )
