-- ===== src/Examples/Groups.antt =====
-- A group of two members, one of which did not tell what it subscribed to.
use kafka_harbor.Prelude.{◌≡◌, ℕ, none, some, [], ◌∷◌, Dict, codes, text_eq, lookup}
use kafka_harbor.Topics.{member}
use kafka_harbor.Platformatic.Assigner.{Members, partition_assigner, subscribes, ids}
use kafka_harbor.Platformatic.Assigner.Once.{holders}
use kafka_harbor.Platformatic.Assigner.Whole.{is_named, partition_assigner-holders}

abbrev members : Members
members = (codes "m1", some (codes "orders" ∷ [])) ∷ (codes "m2", none) ∷ []

abbrev metadata : Dict ℕ
metadata = (codes "orders", 3) ∷ []

partition_assigner-holders_example :
    holders (codes "orders") 2 (partition_assigner members [] metadata) ≡ 1
unfolding member text_eq is_named lookup subscribes ids
partition_assigner-holders_example =
    (partition_assigner-holders members [] metadata (codes "orders") 2).0
