-- ===== src/Tests/Documents.antt =====
-- The repository of documents over an index in memory.
use wallex_sanbox.Prelude.{◌≡◌, refl, String, Bool, true, false, Option, none, some, [], ◌∷◌, inl}
use wallex_sanbox.Prelude.Int.{pos}
use wallex_sanbox.Number.{fin}
use wallex_sanbox.Exec.{ok}
use wallex_sanbox.Projections.{WalletReadModel}
use wallex_sanbox.Documents.{
  answers, ElasticClient, WalletReadRepository, find_by_id, find_in_memory,
}
use wallex_sanbox.Documents.Agreement.{
  ElasticLaws, answer_of, repository_agrees, save_each, save_all_in_memory,
}
use wallex_sanbox.Tests.Memory.{put}

abbrev Cluster : Type 0
Cluster = Bool × (String → Option WalletReadModel)

abbrev elastic : ElasticClient Cluster
elastic = record {
  exists_index = λ b. (answers b.0, b);
  create_index = λ b. (answers tt, (true, b.1));
  index_document = λ m b. (answers tt, (true, put m.id (some m) b.1));
  get_document = λ k b. (answer_of (b.1 k), b);
  search = λ n c b. (answers [], b);
}

abbrev elastic_laws : ElasticLaws elastic
elastic_laws = record {
  has_index = λ b. b.0;
  stored = λ b. b.1;
  exists_law = λ b. refl;
  create_law = λ b. (inl refl, refl, λ k. refl);
  index_law = λ m b h. (refl, refl, λ k. refl);
  get_law = λ k b h. refl;
}

abbrev fresh_repository : WalletReadRepository Cluster
fresh_repository = record { index_initialized = false; cluster = (false, λ k. none) }

abbrev document : String → WalletReadModel
document id = record {
  id = id;
  owner_id = "owner";
  balance = fin (pos 7);
  version = pos 1;
  audit_trail = [];
}

repository_agrees_example :
    let (x, r') =
      save_each elastic elastic_laws (document "q" ∷ document "r" ∷ []) fresh_repository in
    (x ≡ ok tt)
    × ((k : String)
        → (find_by_id elastic k r').0
          ≡ ok (find_in_memory k (save_all_in_memory (document "q" ∷ document "r" ∷ []) [])))
repository_agrees_example =
    repository_agrees elastic elastic_laws (document "q" ∷ document "r" ∷ []) [] fresh_repository
      (λ h. absurd (cc h)) (λ k. refl)
