-- ===== src/Manifests/Applied/Dumped.antt =====
-- internal/manifests/KubeManifestBase.go: what kubectl is given.
use microkube.Base.{
  ℕ, suc, ◌+◌, String, true, false, Option, none, some, List, [], ◌∷◌, ◌++◌, append_assoc,
  append-nil, map, concat, inr, length, ltb, ◌≡◌, refl, sym, ap, ap₂, subst, ◌∙◌, arith,
}
use microkube.Base.Bytes.{Bytes, codes}
use microkube.Base.Texts as Texts
use microkube.Manifests.Applied.{
  KubeManifestBase, Outcome, returned, failed, panicked, cut, write_object, write_objects,
  dump_to_file, run_apply, apply_to_cluster,
}

cut-length : (xs : Bytes) → cut (length xs) xs ≡ xs
cut-length [] = refl
cut-length (x ∷ xs) = ap (λ t. x ∷ t) (cut-length xs)

module _ {E : Type 0} (writes : Bytes → Bytes → ℕ × Option E)
    (full : (written bytes : Bytes) → writes written bytes ≡ (length bytes, none)) where
  -- A round that writes the whole object, and the round after it.
  write_object_round :
      (fuel : ℕ) (obj written : Bytes)
      → ltb 0 (length obj) ≡ true
      → write_object writes (suc fuel) obj 0 written
        ≡ write_object writes fuel obj (length obj) (written ++ obj)
  unfolding write_object
  write_object_round fuel obj written e =
      rw (e, write_object)
        (subst (λ (n, x). after n x ≡ write_object writes fuel obj (length obj) (written ++ obj))
          (sym (full written obj))
          (ap₂ (λ n t. write_object writes fuel obj n (written ++ t)) (omega arith)
            (cut-length obj)))
    where
      after : ℕ → Option E → Option (Outcome Bytes E)
      after n x = elim x [
        | none ↦ write_object writes fuel obj (0 + n) (written ++ cut n obj)
        | some e ↦ some panicked
      ]

  write_object_end :
      (fuel : ℕ) (obj written : Bytes)
      → write_object writes (suc fuel) obj (length obj) written ≡ some (returned written)
  unfolding write_object
  write_object_end fuel obj written =
      let e : ltb (length obj) (length obj) ≡ false = ground arith in rw (e, write_object) refl

  write_object_whole :
      (obj written : Bytes)
      → write_object writes (suc (length obj)) obj 0 written ≡ some (returned (written ++ obj))
  unfolding write_object
  write_object_whole [] written = rw (append-nil written) refl
  write_object_whole (c ∷ obj) written =
      write_object_round (suc (length obj)) (c ∷ obj) written (ground arith)
      ∙ write_object_end (length obj) (c ∷ obj) (written ++ c ∷ obj)

  write_objects-concat :
      (objs : List Bytes) (written : Bytes)
      → write_objects writes objs written ≡ some (returned (written ++ concat objs))
  unfolding write_objects
  write_objects-concat [] written = rw (append-nil written) refl
  write_objects-concat (obj ∷ objs) written =
      rw (write_object_whole obj written, write_objects)
        (write_objects-concat objs (written ++ obj)
          ∙ ap (λ t. some (returned t)) (append_assoc written obj (concat objs)))

  -- Where file.Write takes all that it is given and a temporary file can be made, ApplyToCluster
  -- returns, and what it returns is the answer of `kubectl apply` on a file that holds the
  -- registered objects one behind the other, with the kubeconfig it was given.
  pub apply_to_cluster_lem :
      {C : Type 0} (name : String) (kubectl : List String → Bytes → Option E) (kubeconfig : String)
      (m : KubeManifestBase C)
      → apply_to_cluster writes (inr name) kubectl kubeconfig m
        ≡ some
            (elim (kubectl
              (Texts.◌++◌ "--kubeconfig=" kubeconfig ∷ "apply" ∷ "-f" ∷ name ∷ [])
              (concat (map codes m.objects))) [ none ↦ returned tt | some e ↦ failed e ])
  unfolding apply_to_cluster dump_to_file run_apply
  apply_to_cluster_lem name kubectl kubeconfig m =
      rw (write_objects-concat (map codes m.objects) [], apply_to_cluster, dump_to_file, run_apply)
        (elim (kubectl (Texts.◌++◌ "--kubeconfig=" kubeconfig ∷ "apply" ∷ "-f" ∷ name ∷ [])
            (concat (map codes m.objects)))
          as (λ r. answer r ≡ some (elim r [ none ↦ returned tt | some e ↦ failed e ])) [
            | none ↦ refl
            | some e ↦ refl
          ])
    where
      answer : Option E → Option (Outcome (Unit {0}) E)
      answer r = elim r [ none ↦ some (returned tt) | some e ↦ some (failed e) ]
