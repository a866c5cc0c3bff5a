-- ===== src/Automatic/Requests.antt =====
-- Which reconciles a change of a PVC or of a namespace asks for, and the index of child backups.
use backsnap.Base.{String, not, ◌||◌, Option, none, some, List, [], ◌∷◌, str_eq}
use backsnap.Base.{if◌then◌else◌}
use backsnap.Go.Lo.{Lo}
use backsnap.Kube.{NamespacedName, ObjectMeta, OwnerReference, Pvc}
use backsnap.Api.{PvcBackup}
use backsnap.Client.{Client, Reply, ok, err}
use backsnap.Settings.{ignores}
use backsnap.Backup.State.{key_of}

-- The fields of `AutomaticPVCBackupCreator` that are set once.
pub record AutomaticConfig : Type 0 where
  pub default_schedule : String
  pub namespaces : List String
  pub exclude_namespaces : List String

-- The index of `SetupWithManager`: the PVC that controls the backup. metav1.GetControllerOf and
-- the text of corev1.SchemeGroupVersion are third-party code.
unfoldable pub child_index : (ObjectMeta → Option OwnerReference) → String → PvcBackup → List String
child_index get_controller_of core_version b = elim (get_controller_of b.meta) [
  | none ↦ []
  | some owner ↦
      if not (str_eq owner.api_version core_version)
        || not (str_eq owner.kind "PersistentVolumeClaim")
      then []
      else owner.name ∷ []
]

module _ (lo : Lo) (cfg : AutomaticConfig) where
  -- `pvcToRequest`
  unfoldable pub pvc_to_request : Pvc → List NamespacedName
  pvc_to_request pvc =
      if ignores lo cfg.namespaces cfg.exclude_namespaces pvc.meta.namespace
      then []
      else key_of pvc.meta ∷ []

  module _ (C : Client) where
    -- The requests for the PVCs of a listing; a failed listing asks for none.
    abbrev pub requests_for : Reply C.Failure (List Pvc) → List NamespacedName
    requests_for (err _) = []
    requests_for (ok pvcs) = lo.map_with Pvc NamespacedName pvcs (λ pvc _. key_of pvc.meta)

    -- `namespaceToRequests`, from the namespace's name.
    unfoldable pub namespace_to_requests : String → C.World → List NamespacedName × C.World
    namespace_to_requests name w =
        if ignores lo cfg.namespaces cfg.exclude_namespaces name
        then ([], w)
        else let (reply, w') = C.list_pvcs name w in (requests_for reply, w')
