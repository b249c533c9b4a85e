-- ===== src/Documents.antt =====
-- wallet/infrastructure/read-model/wallet-read.repository.ts: the repository of the read model's
-- documents over Elasticsearch, and the one in memory. The client is a package and a parameter.
-- Documents are values, so that the copies that the code makes are left out, and so are logs.
pub mod Agreement
use wallex_sanbox.Prelude.{
  ℕ, String, Bool, true, false, Option, none, some, List, [], ◌∷◌, str_eq, if◌then◌else◌,
}
use wallex_sanbox.Exec.{Error, plain, Result, ok, err, Exec, pure, ◌>>=◌, ◌>>◌}
use wallex_sanbox.Projections.{WalletReadModel}

-- What a call throws: a missing document, an index that exists already, or any other error.
pub data ElasticError : Type 0 where
  missing_document resource_exists : ElasticError
  other_error : Error → ElasticError

pub data Answer (A : Type 0) : Type 0 where
  answers : A → Answer A
  throws : ElasticError → Answer A

-- The client's calls on one index, on the state of the cluster.
pub record ElasticClient (B : Type 0) : Type 0 where
  pub exists_index : B → Answer Bool × B
  pub create_index : B → Answer (Unit {0}) × B
  -- `index`, at the identifier of the document
  pub index_document : WalletReadModel → B → Answer (Unit {0}) × B
  -- `get` and `search`, with the `_source` of each hit
  pub get_document : String → B → Answer (Option WalletReadModel) × B
  pub search : ℕ → (WalletReadModel → Bool) → B → Answer (List (Option WalletReadModel)) × B

pub record WalletReadRepository (B : Type 0) : Type 0 where
  pub index_initialized : Bool
  pub cluster : B

abbrev pub default_result_size : ℕ
default_result_size = 1000

-- An error that no method catches.
abbrev uncaught : ElasticError → Error
uncaught missing_document = plain "document_missing_exception"
uncaught resource_exists = plain "resource_already_exists_exception"
uncaught (other_error e) = e

abbrev pub result_of : {A : Type 0} → Answer A → Result A
result_of (answers a) = ok a
result_of (throws e) = err (uncaught e)

-- `isResourceExistsError`
abbrev pub unless_exists : Answer (Unit {0}) → Result (Unit {0})
unless_exists (answers u) = ok tt
unless_exists (throws resource_exists) = ok tt
unless_exists (throws missing_document) = err (uncaught missing_document)
unless_exists (throws (other_error e)) = err e

-- `isNotFoundError`
abbrev pub unless_missing : Answer (Option WalletReadModel) → Result (Option WalletReadModel)
unless_missing (answers source) = ok source
unless_missing (throws missing_document) = ok none
unless_missing (throws resource_exists) = err (uncaught resource_exists)
unless_missing (throws (other_error e)) = err e

-- `filter(Boolean)`
abbrev pub sources : List (Option WalletReadModel) → List WalletReadModel
sources [] = []
sources (none ∷ hits) = sources hits
sources (some m ∷ hits) = m ∷ sources hits

module _ {B : Type 0} (client : ElasticClient B) where
  -- A call of the client, with what the method makes of its answer.
  abbrev pub on_cluster :
      {A C : Type 0} → (Answer A → Result C) → (B → Answer A × B) → Exec (WalletReadRepository B) C
  on_cluster reading call r = let (a, b) = call r.cluster in (reading a, record r { cluster = b })

  abbrev pub initialized : Exec (WalletReadRepository B) (Unit {0})
  initialized r = (ok tt, record r { index_initialized = true })

  abbrev pub create_unless : Bool → Exec (WalletReadRepository B) (Unit {0})
  create_unless exists = if exists then pure tt else on_cluster unless_exists client.create_index

  unfoldable pub ensure_index : Exec (WalletReadRepository B) (Unit {0})
  ensure_index r =
      if r.index_initialized
      then (ok tt, r)
      else (on_cluster result_of client.exists_index >>= create_unless >> initialized) r

  unfoldable pub save : WalletReadModel → Exec (WalletReadRepository B) (Unit {0})
  unfolding ensure_index
  save model = ensure_index >> on_cluster result_of (client.index_document model)

  unfoldable pub find_by_id : String → Exec (WalletReadRepository B) (Option WalletReadModel)
  unfolding ensure_index
  find_by_id wallet_id = ensure_index >> on_cluster unless_missing (client.get_document wallet_id)

  abbrev searched : (WalletReadModel → Bool) → Exec (WalletReadRepository B) (List WalletReadModel)
  searched c =
      on_cluster result_of (client.search default_result_size c) >>= λ hits. pure (sources hits)

  unfoldable pub search_by_owner : String → Exec (WalletReadRepository B) (List WalletReadModel)
  unfolding ensure_index
  search_by_owner owner_id = ensure_index >> searched (λ m. str_eq m.owner_id owner_id)

  unfoldable pub find_all : Exec (WalletReadRepository B) (List WalletReadModel)
  unfolding ensure_index
  find_all = ensure_index >> searched (λ m. true)

-- `InMemoryWalletReadRepository`, whose map keeps its keys in the order in which they came.
abbrev pub save_in_memory : WalletReadModel → List WalletReadModel → List WalletReadModel
save_in_memory m [] = m ∷ []
save_in_memory m (d ∷ ds) =
    let rest = save_in_memory m ds in if str_eq d.id m.id then m ∷ ds else d ∷ rest

abbrev pub find_in_memory : String → List WalletReadModel → Option WalletReadModel
find_in_memory wallet_id [] = none
find_in_memory wallet_id (d ∷ ds) =
    let rest = find_in_memory wallet_id ds in if str_eq d.id wallet_id then some d else rest

abbrev pub search_in_memory : String → List WalletReadModel → List WalletReadModel
search_in_memory owner_id [] = []
search_in_memory owner_id (d ∷ ds) =
    let rest = search_in_memory owner_id ds in if str_eq d.owner_id owner_id then d ∷ rest else rest

abbrev pub find_all_in_memory : List WalletReadModel → List WalletReadModel
find_all_in_memory documents = documents
