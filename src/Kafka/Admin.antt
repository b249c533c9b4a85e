-- ===== src/Kafka/Admin.antt =====
-- kafka/kafka-admin.service.ts: the topics that the service needs, which are created when the module
-- starts. The admin client is a package and a parameter; what only passes its answers on and the logs
-- are left out.
pub mod Topics
use wallex_sanbox.Prelude.{
  ℕ, ◌≡◌, refl, ap, ◌∙◌, String, Bool, true, false, not, ◌||◌, List, [], ◌∷◌, ◌++◌, map, str_eq,
  eq_refl, All, arith, eq_iff, sym, Bool-cases, inl, inr, if◌then◌else◌,
}
use wallex_sanbox.Exec.{Result, ok, err, Exec, pure, ◌>>=◌, ◌>>◌}

pub record TopicConfig : Type 0 where
  pub topic : String
  pub num_partitions : ℕ
  pub replication_factor : ℕ
  pub config_entries : List (String × String)

-- The client's calls, on the state of the cluster.
pub record AdminClient (B : Type 0) : Type 0 where
  pub connect : Exec B (Unit {0})
  pub disconnect : Exec B (Unit {0})
  pub list_topics : Exec B (List String)
  -- `createTopics`, which waits for the leaders; with whether there was something to create
  pub create_topics : List TopicConfig → Exec B Bool
  pub delete_topics : List String → Exec B (Unit {0})

abbrev pub wallet_events : TopicConfig
wallet_events = record {
  topic = "wallet-events";
  num_partitions = 10;
  replication_factor = 1;
  config_entries =
      ("cleanup.policy", "delete")
      ∷ ("retention.ms", "604800000")
      ∷ ("segment.ms", "86400000")
      ∷ ("compression.type", "gzip")
      ∷ ("min.insync.replicas", "1")
      ∷ [];
}

abbrev pub wallet_events_dlq : TopicConfig
wallet_events_dlq = record {
  topic = "wallet-events-dlq";
  num_partitions = 5;
  replication_factor = 1;
  config_entries =
      ("cleanup.policy", "delete")
      ∷ ("retention.ms", "2592000000")
      ∷ ("compression.type", "gzip")
      ∷ [];
}

abbrev pub topics : List TopicConfig
topics = wallet_events ∷ wallet_events_dlq ∷ []

abbrev pub includes : String → List String → Bool
includes s [] = false
includes s (t ∷ ts) = str_eq t s || includes s ts

-- `topics.filter((t) => !existingTopics.includes(t.topic))`
abbrev pub topics_to_create : List String → List TopicConfig → List TopicConfig
topics_to_create existing [] = []
topics_to_create existing (t ∷ ts) =
    let rest = topics_to_create existing ts in if includes t.topic existing then rest else t ∷ rest

abbrev pub names : List TopicConfig → List String
names = map (λ t. t.topic)

module _ {B : Type 0} (client : AdminClient B) where
  -- A topic that another process creates meanwhile is no error.
  abbrev pub create_if_some : List TopicConfig → Exec B (Unit {0})
  create_if_some [] = pure tt
  create_if_some (t ∷ ts) = client.create_topics (t ∷ ts) >> pure tt

  -- What fails is thrown again.
  unfoldable pub create_topics : Exec B (Unit {0})
  create_topics =
      client.list_topics >>= λ existing. create_if_some (topics_to_create existing topics)

  unfoldable pub on_module_init : Exec B (Unit {0})
  unfolding create_topics
  on_module_init = client.connect >> create_topics

  -- An error of the client is only logged.
  unfoldable pub disconnect : Exec B (Unit {0})
  disconnect b = (ok tt, (client.disconnect b).1)

  unfoldable pub delete_topic : String → Exec B (Unit {0})
  delete_topic topic = client.delete_topics (topic ∷ [])
