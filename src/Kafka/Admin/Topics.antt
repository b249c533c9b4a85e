-- ===== src/Kafka/Admin/Topics.antt =====
-- The topics after the module has started.
use mathlib.Core.List.{append-nil}
use mathlib.Core.Path.{subst}
use wallex_sanbox.Prelude.{
  ◌≡◌, refl, ap, ◌∙◌, sym, String, true, false, ◌||◌, List, [], ◌∷◌, ◌++◌, str_eq, All, arith,
  eq_iff, Bool-cases, inl, inr,
}
use wallex_sanbox.Exec.{ok}
use wallex_sanbox.Kafka.Admin.{
  AdminClient, TopicConfig, topics, topics_to_create, includes, names, create_if_some,
  create_topics, on_module_init,
}

-- What is documented of a cluster that answers: it lists the names of its topics, and creates topics
-- of other names.
pub record AdminLaws {B : Type 0} (client : AdminClient B) : Type 0 where
  pub topics_of : B → List TopicConfig
  pub connect_law :
      (b : B) → ((client.connect b).0 ≡ ok tt) × (topics_of (client.connect b).1 ≡ topics_of b)
  pub list_law :
      (b : B)
      → ((client.list_topics b).0 ≡ ok (names (topics_of b)))
        × (topics_of (client.list_topics b).1 ≡ topics_of b)
  pub create_law :
      (t : TopicConfig) (ts : List TopicConfig) (b : B)
      → All (λ t. includes t.topic (names (topics_of b)) ≡ false) (t ∷ ts)
      → ((client.create_topics (t ∷ ts) b).0 ≡ ok true)
        × (topics_of (client.create_topics (t ∷ ts) b).1 ≡ topics_of b ++ t ∷ ts)

missing-All :
    (existing : List String) (ts : List TopicConfig)
    → All (λ t. includes t.topic existing ≡ false) (topics_to_create existing ts)
missing-All existing [] = tt
missing-All existing (t ∷ ts) = elim (Bool-cases (includes t.topic existing)) [
  | inl h ↦ rw h (missing-All existing ts)
  | inr h ↦ rw h (h, missing-All existing ts)
]

includes-append :
    (s : String) (xs ys : List TopicConfig)
    → includes s (names (xs ++ ys)) ≡ (includes s (names xs) || includes s (names ys))
includes-append s [] ys = refl
includes-append s (x ∷ xs) ys = ground (arith, includes-append s xs ys)

found_under_name :
    (s t : String) (existing : List String)
    → includes t existing ≡ true
    → includes s existing ≡ false
    → str_eq t s ≡ false
found_under_name s t existing h k = elim (Bool-cases (str_eq t s)) [
  | inl same ↦ absurd (cc (h, k, (eq_iff t s).0 same))
  | inr other ↦ other
]

-- A topic that is asked for and missing is to be created.
still_asked :
    (s : String) (existing : List String) (asked : List TopicConfig)
    → includes s existing ≡ false
    → includes s (names (topics_to_create existing asked)) ≡ includes s (names asked)
still_asked s existing [] h = refl
still_asked s existing (t ∷ ts) h = elim (Bool-cases (includes t.topic existing)) [
  | inl k ↦ rw (k, found_under_name s t.topic existing k h, still_asked s existing ts h) refl
  | inr k ↦ rw (k, still_asked s existing ts h) refl
]

-- Every topic that is asked for is there, once the missing ones are.
asked_there :
    (have asked : List TopicConfig) (s : String)
    → includes s (names asked) ≡ true
    → includes s (names (have ++ topics_to_create (names have) asked)) ≡ true
asked_there have asked s h =
    rw (includes-append s have _) (elim (Bool-cases (includes s (names have))) [
      | inl k ↦ rw k refl
      | inr k ↦ rw (k, still_asked s (names have) asked k, h) refl
    ])

none_missing :
    (existing : List String) (ts : List TopicConfig)
    → All (λ t. includes t.topic existing ≡ true) ts
    → topics_to_create existing ts ≡ []
none_missing existing [] h = refl
none_missing existing (t ∷ ts) h = rw h.0 (none_missing existing ts h.1)

module _ {B : Type 0} (client : AdminClient B) (laws : AdminLaws client) where
  open laws use {topics_of}

  created :
      (have ts : List TopicConfig) (b : B)
      → topics_of b ≡ have
      → All (λ t. includes t.topic (names have) ≡ false) ts
      → let (r, b') = create_if_some client ts b in (r ≡ ok tt) × (topics_of b' ≡ have ++ ts)
  created have [] b same h = (refl, same ∙ sym (append-nil have))
  created have (t ∷ ts) b same h =
      let (r, grown) =
        laws.create_law t ts b
          (subst (λ l. All (λ t. includes t.topic (names l) ≡ false) (t ∷ ts)) (sym same) h) in
      rw r (refl, rw same at grown)

  init_creates :
      (b : B)
      → let (r, b') = on_module_init client b in
        (r ≡ ok tt) × (topics_of b' ≡ topics_of b ++ topics_to_create (names (topics_of b)) topics)
  unfolding on_module_init create_topics
  init_creates b =
      let (connected, same) = laws.connect_law b in
      let b1 = (client.connect b).1 in
      let (listed, still) = laws.list_law b1 in
      let have = topics_of b in
      let existing = listed ∙ ap (λ l. ok (names l)) same in
      rw connected (
        rw existing (
          created have (topics_to_create (names have) topics) (client.list_topics b1).1
            (still ∙ same) (missing-All (names have) topics)))

  -- Where the cluster answers, the module starts. The topics are then those of before, as they were,
  -- and behind them the required ones whose names were not among them, with their configurations, so
  -- that every required topic is there. Another start changes nothing.
  pub required_topics_there :
      (b : B)
      → let (r, b') = on_module_init client b in
        (r ≡ ok tt)
        × (topics_of b' ≡ topics_of b ++ topics_to_create (names (topics_of b)) topics)
        × All (λ t. includes t.topic (names (topics_of b')) ≡ true) topics
        × (topics_of (on_module_init client b').1 ≡ topics_of b')
  required_topics_there b =
      let (r, grown) = init_creates b in
      let b' = (on_module_init client b).1 in
      let there = asked_there (topics_of b) topics in
      let all : All (λ t. includes t.topic (names (topics_of b')) ≡ true) topics =
        rw grown (there "wallet-events" refl, (there "wallet-events-dlq" refl, tt)) in
      let again = (init_creates b').1 in
      (
        r,
        grown,
        all,
        again
            ∙ ap (λ l. topics_of b' ++ l) (none_missing (names (topics_of b')) topics all)
            ∙ append-nil (topics_of b'),
      )
