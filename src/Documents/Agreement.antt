-- ===== src/Documents/Agreement.antt =====
-- The repository over Elasticsearch finds what the one in memory finds.
use wallex_sanbox.Prelude.{
  ◌≡◌, refl, ap, ◌∙◌, sym, String, Bool, true, Option, none, some, List, [], ◌∷◌, str_eq, eq_iff,
  eq_refl, ◌⊎◌, inl, inr, Bool-cases, if◌then◌else◌,
}
use wallex_sanbox.Exec.{ok, Exec, ◌>>◌}
use wallex_sanbox.Projections.{WalletReadModel}
use wallex_sanbox.Documents.{
  missing_document, resource_exists, Answer, answers, throws, ElasticClient, WalletReadRepository,
  ensure_index, save, find_by_id, unless_missing, save_in_memory, find_in_memory,
}

abbrev pub answer_of : Option WalletReadModel → Answer (Option WalletReadModel)
answer_of none = throws missing_document
answer_of (some m) = answers (some m)

read-answer_of : (found : Option WalletReadModel) → unless_missing (answer_of found) ≡ ok found
read-answer_of none = refl
read-answer_of (some m) = refl

-- What is documented of the index, while the cluster answers. Another process may create the index
-- first.
pub record ElasticLaws {B : Type 0} (client : ElasticClient B) : Type 0 where
  pub has_index : B → Bool
  pub stored : B → String → Option WalletReadModel
  pub exists_law : (b : B) → client.exists_index b ≡ (answers (has_index b), b)
  pub create_law :
      (b : B)
      → (((client.create_index b).0 ≡ answers tt)
          ⊎ ((client.create_index b).0 ≡ throws resource_exists))
        × (has_index (client.create_index b).1 ≡ true)
        × ((k : String) → stored (client.create_index b).1 k ≡ stored b k)
  pub index_law :
      (m : WalletReadModel) (b : B)
      → has_index b ≡ true
      → ((client.index_document m b).0 ≡ answers tt)
        × (has_index (client.index_document m b).1 ≡ true)
        × ((k : String)
            → stored (client.index_document m b).1 k
              ≡ (if str_eq m.id k then some m else stored b k))
  pub get_law :
      (k : String) (b : B)
      → has_index b ≡ true
      → client.get_document k b ≡ (answer_of (stored b k), b)

-- Saving to memory, and finding there.
find-save :
    (m : WalletReadModel) (k : String) (ds : List WalletReadModel)
    → find_in_memory k (save_in_memory m ds)
      ≡ (if str_eq m.id k then some m else find_in_memory k ds)
find-save m k [] = refl
find-save m k (d ∷ ds) = elim (Bool-cases (str_eq d.id m.id)) [
  | inl e ↦
      let name : d.id ≡ m.id = (eq_iff d.id m.id).0 e in
      elim (Bool-cases (str_eq m.id k)) [
        | inl q ↦ rw (e, q) refl
        | inr q ↦ rw (e, q, ap (λ i. str_eq i k) name ∙ q) refl
      ]
  | inr e ↦ elim (Bool-cases (str_eq d.id k)) [
    | inr f ↦ rw (e, f) (find-save m k ds)
    | inl f ↦ elim (Bool-cases (str_eq m.id k)) [
      | inl q ↦
          let name : d.id ≡ m.id = (eq_iff d.id k).0 f ∙ sym ((eq_iff m.id k).0 q) in
          absurd (cc (sym e ∙ ap (λ i. str_eq d.id i) (sym name) ∙ eq_refl d.id))
      | inr q ↦ rw (e, f, q) refl
    ]
  ]
]

abbrev pub save_all_in_memory : List WalletReadModel → List WalletReadModel → List WalletReadModel
save_all_in_memory [] ds = ds
save_all_in_memory (m ∷ ms) ds = save_all_in_memory ms (save_in_memory m ds)

module _ {B : Type 0} (client : ElasticClient B) (laws : ElasticLaws client) where
  -- The index is there once the repository says so.
  abbrev pub IsReady : WalletReadRepository B → Type 0
  IsReady r = r.index_initialized ≡ true → laws.has_index r.cluster ≡ true

  abbrev pub HasSame : WalletReadRepository B → List WalletReadModel → Type 0
  HasSame r ds = (k : String) → laws.stored r.cluster k ≡ find_in_memory k ds

  ensured :
      (r : WalletReadRepository B)
      → IsReady r
      → let (x, r') = ensure_index client r in
        (x ≡ ok tt)
        × (r'.index_initialized ≡ true)
        × (laws.has_index r'.cluster ≡ true)
        × ((k : String) → laws.stored r'.cluster k ≡ laws.stored r.cluster k)
  unfolding ensure_index
  ensured r ready = elim (Bool-cases r.index_initialized) [
    | inl there ↦ rw there (refl, refl, ready there, λ k. refl)
    | inr fresh ↦ elim (Bool-cases (laws.has_index r.cluster)) [
      | inl exists ↦ rw (fresh, laws.exists_law, exists) (refl, refl, exists, λ k. refl)
      | inr new ↦
          let (outcome, there, same) = laws.create_law r.cluster in
          elim outcome [
            | inl p ↦ rw (fresh, laws.exists_law, new, p) (refl, refl, there, same)
            | inr p ↦ rw (fresh, laws.exists_law, new, p) (refl, refl, there, same)
          ]
    ]
  ]

  -- A ready repository that has what memory has, and the same after a save to both.
  save_agrees :
      (m : WalletReadModel) (ds : List WalletReadModel) (r : WalletReadRepository B)
      → IsReady r
      → HasSame r ds
      → let (x, r') = save client m r in (x ≡ ok tt) × IsReady r' × HasSame r' (save_in_memory m ds)
  unfolding save
  save_agrees m ds r ready same =
      let (done, marked, there, kept) = ensured r ready in
      let cluster = (ensure_index client r).1.cluster in
      let (indexed, still, at) = laws.index_law m cluster there in
      rw (done, indexed)
        (
          refl,
          λ h. still,
          λ k.
              at k
              ∙ ap (λ found. if str_eq m.id k then some m else found) (kept k ∙ same k)
              ∙ sym (find-save m k ds),
        )

  finds :
      (k : String) (r : WalletReadRepository B)
      → IsReady r
      → (find_by_id client k r).0 ≡ ok (laws.stored r.cluster k)
  unfolding find_by_id
  finds k r ready =
      let (done, marked, there, kept) = ensured r ready in
      let cluster = (ensure_index client r).1.cluster in
      rw (done, laws.get_law k cluster there)
        (read-answer_of (laws.stored cluster k) ∙ ap ok (kept k))

  abbrev pub save_each : List WalletReadModel → Exec (WalletReadRepository B) (Unit {0})
  save_each [] r = (ok tt, r)
  save_each (m ∷ ms) r = (save client m >> save_each ms) r

  -- Take a repository that has what a map in memory has, and models that are saved to both. The saves
  -- succeed, and a search for any identifier then finds in the index what it finds in memory, also
  -- where the index has to be created first, and where another process creates it at the same time.
  pub repository_agrees :
      (ms : List WalletReadModel) (ds : List WalletReadModel) (r : WalletReadRepository B)
      → IsReady r
      → HasSame r ds
      → let (x, r') = save_each ms r in
        (x ≡ ok tt)
        × ((k : String)
            → (find_by_id client k r').0 ≡ ok (find_in_memory k (save_all_in_memory ms ds)))
  unfolding find_by_id
  repository_agrees [] ds r ready same = (refl, λ k. finds k r ready ∙ ap ok (same k))
  repository_agrees (m ∷ ms) ds r ready same =
      let (done, ready', same') = save_agrees m ds r ready same in
      rw done (repository_agrees ms (save_in_memory m ds) (save client m r).1 ready' same')
