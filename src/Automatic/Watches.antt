-- ===== src/Automatic/Watches.antt =====
-- The requests for a change of a namespace, against those for changes of its PVCs.
use backsnap.Base.{
  ◌≡◌, refl, ap, String, false, true, List, [], ◌∷◌, ◌++◌, map, All, Bool-cases, inl, inr,
}
use backsnap.Go.Lo.{Lo, IsLawful}
use backsnap.Kube.{NamespacedName, Pvc}
use backsnap.Client.{Client, ok}
use backsnap.Settings.{ignores}
use backsnap.Backup.State.{key_of}
use backsnap.Automatic.Requests.{AutomaticConfig, pvc_to_request, namespace_to_requests}

-- The requests for each PVC, in their order.
abbrev pub all_requests : Lo → AutomaticConfig → List Pvc → List NamespacedName
all_requests lo cfg [] = []
all_requests lo cfg (pvc ∷ pvcs) = pvc_to_request lo cfg pvc ++ all_requests lo cfg pvcs

abbrev pub In : String → Pvc → Type 0
In name pvc = pvc.meta.namespace ≡ name

module _ (lo : Lo) (cfg : AutomaticConfig) (name : String) where
  all_requests-ignored :
      (pvcs : List Pvc)
      → ignores lo cfg.namespaces cfg.exclude_namespaces name ≡ true
      → All (In name) pvcs
      → all_requests lo cfg pvcs ≡ []
  unfolding pvc_to_request
  all_requests-ignored [] e h = refl
  all_requests-ignored (pvc ∷ pvcs) e h = rw (h.0, e) (all_requests-ignored pvcs e h.1)

  all_requests-watched :
      (pvcs : List Pvc)
      → ignores lo cfg.namespaces cfg.exclude_namespaces name ≡ false
      → All (In name) pvcs
      → all_requests lo cfg pvcs ≡ map (λ p. key_of p.meta) pvcs
  unfolding pvc_to_request
  all_requests-watched [] e h = refl
  all_requests-watched (pvc ∷ pvcs) e h =
      rw (h.0, e)
        (ap (λ (l : List NamespacedName). record { namespace = name; name = pvc.meta.name } ∷ l)
          (all_requests-watched pvcs e h.1))

  -- Where the listing of a namespace succeeds with PVCs of that namespace, the requests for the
  -- namespace are those for each listed PVC, in the order of the listing; so a namespace that is
  -- excluded or not included asks for none, and the two filters never disagree.
  pub namespace_to_requests-eq :
      (L : IsLawful lo) (C : Client) (w : C.World) (pvcs : List Pvc)
      → (C.list_pvcs name w).0 ≡ ok pvcs
      → All (In name) pvcs
      → (namespace_to_requests lo cfg C name w).0 ≡ all_requests lo cfg pvcs
  unfolding namespace_to_requests
  namespace_to_requests-eq L C w pvcs listed same =
      elim (Bool-cases (ignores lo cfg.namespaces cfg.exclude_namespaces name)) [
        | inl ignored ↦ rw (ignored, all_requests-ignored pvcs ignored same) refl
        | inr watched ↦
            rw (watched, listed, all_requests-watched pvcs watched same)
              (L.map_with-eq Pvc NamespacedName pvcs (λ p. key_of p.meta))
      ]
