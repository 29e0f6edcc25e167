-- ===== src/Collection/Tests.antt =====
-- Concrete collections.
use mathlib.Core.List.{Memᴰ}
use karpenter_provider_azure.Prelude.{
  ℕ, true, false, Option, none, some, List, [], ◌∷◌, Text, codes, teq, any, ◌≡◌, ◌↔◌, refl,
}
use karpenter_provider_azure.Collection.Instances.{
  CloudNodeClaim, Node, is_deleted, delete_instance, delete_node, Deletes, Lists, collect_instances,
  list_cloud_node_claims,
}
use karpenter_provider_azure.Collection.Interfaces.{names_of, resource_names, collect_nics}
use karpenter_provider_azure.Collection.Orphans.{IsOrphan, collect_instances-IsOrphan}
use karpenter_provider_azure.Collection.Named.{collect_nics-spares_named}

abbrev matched : CloudNodeClaim
matched = record {
  provider_id = codes "p1";
  deletion_timestamp = 0;
  creation_timestamp = 5;
  vm_state = [];
}

abbrev orphan : CloudNodeClaim
orphan = record matched { provider_id = codes "p2" }

abbrev node : Node
node = record { name = codes "n2"; provider_id = codes "p2" }

abbrev claims : List CloudNodeClaim
claims = matched ∷ orphan ∷ []

abbrev lists : Lists
lists = record {
  with_vm_state = some claims;
  without_vm_state = none;
  cluster_claims = some (codes "p1" ∷ [] ∷ []);
  nodes = some (node ∷ []);
}

abbrev all_deleted : Deletes
all_deleted = record { instance_answer = λ c. is_deleted; node_answer = λ n. is_deleted }

-- An hour after the instances were made.
abbrev hour : ℕ
hour = 3_600_000_000_000

collects_orphan :
    collect_instances all_deleted (λ c. hour) 0 hour lists
    ≡ (hour, (delete_instance orphan ∷ delete_node node ∷ [], true))
unfolding collect_instances
collects_orphan = refl

collect_instances-IsOrphan_example :
    Memᴰ (delete_instance orphan) (collect_instances all_deleted (λ c. hour) 0 hour lists).1.0
    ↔ (Memᴰ orphan claims × IsOrphan (codes "p1" ∷ [] ∷ []) hour orphan)
unfolding list_cloud_node_claims
collect_instances-IsOrphan_example =
    collect_instances-IsOrphan all_deleted (λ c. hour) 0 hour lists claims (codes "p1" ∷ [] ∷ [])
      (node ∷ []) orphan refl refl refl

abbrev nics : List (Option Text)
nics = some (codes "aks-a") ∷ some (codes "aks-b") ∷ []

collect_nics-spares_named_example :
    Memᴰ (codes "aks-b") (names_of nics)
    × (any (teq (codes "aks-b")) (names_of []) ≡ false)
    × (any (teq (codes "aks-b")) (resource_names (codes "a" ∷ [])) ≡ false)
unfolding collect_nics teq
collect_nics-spares_named_example =
    collect_nics-spares_named nics [] (codes "a" ∷ []) true (codes "aks-b") (Memᴰ.head refl)
