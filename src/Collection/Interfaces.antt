-- ===== src/Collection/Interfaces.antt =====
-- Which network interfaces a collection deletes
-- (pkg/controllers/nodeclaim/garbagecollection/nic_garbagecollection.go).
use karpenter_provider_azure.Prelude.{
  Bool, false, not, Option, none, some, List, [], ◌∷◌, ◌++◌, Text, codes, teq, any, if◌then◌else◌,
}

-- `GenerateResourceName`
unfoldable pub generate_resource_name : Text → Text
generate_resource_name node_claim_name = codes "aks-" ++ node_claim_name

abbrev pub name_of : Option Text → Text
name_of none = []
name_of (some t) = t

unfoldable pub names_of : List (Option Text) → List Text
names_of [] = []
names_of (n ∷ ns) = name_of n ∷ names_of ns

unfoldable pub resource_names : List Text → List Text
unfolding generate_resource_name
resource_names [] = []
resource_names (n ∷ ns) = generate_resource_name n ∷ resource_names ns

-- `populateUnremovableInterfaces`, of the names of the VMs and of the NodeClaims; `none` is an error.
unfoldable pub populate_unremovable_interfaces :
    Option (List (Option Text)) → Option (List Text) → Option (List Text)
unfolding names_of resource_names
populate_unremovable_interfaces none claims = none
populate_unremovable_interfaces (some vms) none = none
populate_unremovable_interfaces (some vms) (some claims) =
    some (names_of vms ++ resource_names claims)

-- The names of the interfaces that are deleted. A delete that fails is logged.
unfoldable pub removable : List Text → List (Option Text) → List Text
unfolding teq
removable unremovable [] = []
removable unremovable (nic ∷ nics) =
    let rest = removable unremovable nics in
    if not (any (teq (name_of nic)) unremovable) then name_of nic ∷ rest else rest

-- What a reconcile asks for: the deletes of interfaces, and the cleanup of public IPs but for those of
-- the names that it gets; then whether there was an error.
pub record NicCollection : Type 0 where
  pub deleted_nics : List Text
  pub kept_by_cleanup : Option (List Text)
  pub no_error : Bool

unfoldable pub collect_nics_of : List (Option Text) → Option (List Text) → Bool → NicCollection
unfolding removable
collect_nics_of nics none cleaned = record {
  deleted_nics = [];
  kept_by_cleanup = none;
  no_error = false;
}
collect_nics_of nics (some unremovable) cleaned = record {
  deleted_nics = removable unremovable nics;
  kept_by_cleanup = some unremovable;
  no_error = cleaned;
}

-- `Reconcile`; `cleaned` is whether `CleanupPublicIPs` succeeds.
unfoldable pub collect_nics :
    Option (List (Option Text))
    → Option (List (Option Text))
    → Option (List Text)
    → Bool
    → NicCollection
unfolding collect_nics_of populate_unremovable_interfaces
collect_nics none vms claims cleaned = record {
  deleted_nics = [];
  kept_by_cleanup = none;
  no_error = false;
}
collect_nics (some nics) vms claims cleaned =
    collect_nics_of nics (populate_unremovable_interfaces vms claims) cleaned
