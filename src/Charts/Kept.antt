-- ===== src/Charts/Kept.antt =====
-- The values of the last chart leave an instance its name, its namespace and its annotations.
use grpc_gw_controller.Base.{
  Option, none, some, true, false, [], String, string_eq, ◌≟◌, Outcome, ok, bytes_eq, Holds,
  Holds-if, Holds-bind, Holds-then, Bool-cases, ◌≡◌, refl, inl, inr, ◌>>=◌,
}
use grpc_gw_controller.Base.Text.{Bytes}
use grpc_gw_controller.Base.Dict.{lookup, lookup-insert}
use grpc_gw_controller.Maps.{add, key_has_value}
use grpc_gw_controller.Apps.{AppInstanceData}
use grpc_gw_controller.Charts.{
  Value, Fields, no_fields, field, Values, no_values, value, sequence, text, flag, Reader,
  add_annotation, add_label, add_env, as_mapping, as_name, as_text, int, mapping, other, at,
}
use grpc_gw_controller.Charts.Reuse.{
  reuse_configs, reuse_secrets, reuse_image, reuse_annotations, keep_annotation, take_version,
  reuse_state, keep_label, reuse_labels, reuse_env, reuse_size, reuse_shared, reuse_storage,
  reuse_ports, ports_of, with_schedule, if_there, reuse_values,
}

-- The name, the namespace and the annotation under `k`.
abbrev pub Identified : Bytes → Bytes → String → Bytes → AppInstanceData → Type 0
Identified n ns k v d =
    (d.instance_name ≡ n) × (d.target_namespace ≡ ns) × (lookup k d.annotations ≡ some v)

module _ (n ns : Bytes) (k : String) (v : Bytes) where
  abbrev pub Q : AppInstanceData → Type 0
  Q = Identified n ns k v

  pub add_other :
      (j : String) (x : Bytes) (d : AppInstanceData)
      → (j ≟ k) ≡ false
      → Q d
      → Q (add_annotation j x d)
  unfolding add_annotation add
  add_other j x d o h = (h.0, h.1, rw (lookup-insert j k x d.annotations, o) h.2)

module _ (n ns : Bytes) (k : String) (v : Bytes) (r : Reader) where
  abbrev pub Keeps : (AppInstanceData → Outcome Bytes AppInstanceData) → Type 0
  Keeps f = (d : AppInstanceData) → Q n ns k v d → Holds (Q n ns k v) (f d)

  reuse_configs-Keeps : (dir : Bytes) (vs : Fields) → Keeps (reuse_configs r dir vs)
  unfolding reuse_configs
  reuse_configs-Keeps dir vs d h = search (Holds-bind, Holds-if)

  reuse_secrets-Keeps : (dir : Bytes) (vs : Fields) → Keeps (reuse_secrets r dir vs)
  unfolding reuse_secrets
  reuse_secrets-Keeps dir vs d h = search (Holds-bind, Holds-if)

  reuse_image-Keeps : (vs : Fields) → Keeps (reuse_image r vs)
  unfolding reuse_image
  reuse_image-Keeps vs d h = search (Holds-bind)

  reuse_state-Keeps : (vs : Fields) → Keeps (reuse_state r vs)
  unfolding reuse_state
  reuse_state-Keeps vs d h = search (Holds-bind)

  keep_label-Keeps : (key : String) (x : Value) → Keeps (keep_label r key x)
  unfolding add_label
  keep_label-Keeps key x d h = search (Holds-bind, Holds-if)

  reuse_labels-Keeps : (fs : Fields) → Keeps (reuse_labels r fs)
  unfolding reuse_labels
  reuse_labels-Keeps no_fields d h = h
  reuse_labels-Keeps (field j x fs) d h = Holds-bind (Q n ns k v) (as_name j) _ (λ key.
      Holds-then (Q n ns k v) (Q n ns k v) (keep_label r key x d) _ (keep_label-Keeps key x d h)
        (reuse_labels-Keeps fs))

  reuse_env-Keeps : (fs : Fields) → Keeps (reuse_env r fs)
  unfolding reuse_env add_env
  reuse_env-Keeps no_fields d h = h
  reuse_env-Keeps (field j x fs) d h = search (Holds-bind, reuse_env-Keeps fs)

  reuse_ports-Keeps : (vs : Values) → Keeps (reuse_ports r vs)
  unfolding reuse_ports
  reuse_ports-Keeps no_values d h = h
  reuse_ports-Keeps (value x vs) d h = search (Holds-bind, reuse_ports-Keeps vs)

  reuse_size-Keeps : (i : Fields) → Keeps (reuse_size r i)
  reuse_size-Keeps i d h = search (Holds-bind, Holds-if)

  reuse_shared-Keeps : (s : Fields) → Keeps (reuse_shared r s)
  reuse_shared-Keeps s d h = search (Holds-bind, Holds-if)

  reuse_storage-Keeps : (vs : Fields) → Keeps (reuse_storage r vs)
  unfolding reuse_storage
  reuse_storage-Keeps vs d h = Holds-bind (Q n ns k v) (as_mapping (at vs "persistence")) _ (λ p.
      Holds-bind (Q n ns k v) (as_mapping (at p "instance")) _ (λ i.
        Holds-then (Q n ns k v) (Q n ns k v) (reuse_size r i d) _ (reuse_size-Keeps i d h) (λ e q.
          Holds-bind (Q n ns k v) (as_mapping (at p "shared")) _ (λ s. reuse_shared-Keeps s e q))))

  if_there-Keeps :
      (o : Option Value) (f : Fields → AppInstanceData → Outcome Bytes AppInstanceData)
      → ((fs : Fields) → Keeps (f fs))
      → Keeps (if_there r o f)
  if_there-Keeps none f s d h = h
  if_there-Keeps (some x) f s d h = Holds-bind (Q n ns k v) (as_mapping (some x)) _ (λ fs. s fs d h)

  ports_of-Keeps : (o : Option Value) → Keeps (ports_of r o)
  ports_of-Keeps none d h = h
  ports_of-Keeps (some (text x)) d h = h
  ports_of-Keeps (some (flag x)) d h = h
  ports_of-Keeps (some (int x)) d h = h
  ports_of-Keeps (some (mapping x)) d h = h
  ports_of-Keeps (some (sequence x)) d h = reuse_ports-Keeps x d h
  ports_of-Keeps (some other) d h = h

  with_schedule-Keeps : (o : Option Value) → Keeps (λ d. ok (with_schedule r o d))
  with_schedule-Keeps none d h = h
  with_schedule-Keeps (some (text x)) d h = h
  with_schedule-Keeps (some (flag x)) d h = h
  with_schedule-Keeps (some (int x)) d h = h
  with_schedule-Keeps (some (mapping x)) d h = h
  with_schedule-Keeps (some (sequence x)) d h = h
  with_schedule-Keeps (some other) d h = h

  has_value :
      (d : AppInstanceData)
      → bytes_eq v [] ≡ false
      → Q n ns k v d
      → key_has_value d.annotations k ≡ true
  unfolding key_has_value
  has_value d full h = rw (h.2, full) refl

  -- A key that has a value is passed over.
  other_key :
      (key : String) (d : AppInstanceData)
      → bytes_eq v [] ≡ false
      → Q n ns k v d
      → key_has_value d.annotations key ≡ false
      → (key ≟ k) ≡ false
  other_key key d full h f = elim (Bool-cases (key ≟ k)) [
    | inl g ↦ absurd (cc (f, has_value d full h, (string_eq.beq_iff key k).0 g))
    | inr g ↦ g
  ]

  keep_annotation-Keeps :
      bytes_eq v [] ≡ false → (key : String) (x : Value) → Keeps (keep_annotation r key x)
  keep_annotation-Keeps full key x d h =
      let add_one : key_has_value d.annotations key ≡ false
          → Holds (Q n ns k v) (as_text (some x) >>= λ t. ok (add_annotation key t d)) =
        λ e.
          Holds-bind (Q n ns k v) (as_text (some x)) (λ t. ok (add_annotation key t d))
            (λ t. add_other n ns k v key t d (other_key key d full h e) h) in
      elim (Bool-cases (key_has_value d.annotations key)) [
        | inl e ↦ rw e (Holds-if (Q n ns k v) _ (ok d) (ok d) h h)
        | inr e ↦ rw e (Holds-if (Q n ns k v) _ (ok d) _ h (add_one e))
      ]

  take_version-Keeps : (key : String) (x : Value) → Keeps (take_version r key x)
  take_version-Keeps key x d h = search (Holds-bind, Holds-if)

  reuse_annotations-Keeps : bytes_eq v [] ≡ false → (fs : Fields) → Keeps (reuse_annotations r fs)
  unfolding reuse_annotations
  reuse_annotations-Keeps full no_fields d h = h
  reuse_annotations-Keeps full (field j x fs) d h = Holds-bind (Q n ns k v) (as_name j) _ (λ key.
      Holds-then (Q n ns k v) (Q n ns k v) (keep_annotation r key x d) _
        (keep_annotation-Keeps full key x d h)
        (λ e q.
          Holds-then (Q n ns k v) (Q n ns k v) (take_version r key x e) _
            (take_version-Keeps key x e q) (reuse_annotations-Keeps full fs)))

  -- One step after another.
  then_Keeps :
      (m : Outcome Bytes AppInstanceData) (f : AppInstanceData → Outcome Bytes AppInstanceData)
      → Holds (Q n ns k v) m
      → Keeps f
      → Holds (Q n ns k v) (m >>= f)
  then_Keeps m f h g = Holds-then (Q n ns k v) (Q n ns k v) m f h g

  pub reuse_values-Keeps :
      bytes_eq v [] ≡ false → (dir : Bytes) (vs : Fields) → Keeps (reuse_values r dir vs)
  unfolding reuse_values
  reuse_values-Keeps full dir vs d0 h = then_Keeps _ _ (reuse_configs-Keeps dir vs d0 h) (λ d1 h1.
      then_Keeps _ _ (reuse_secrets-Keeps dir vs d1 h1) (λ d2 h2.
        then_Keeps _ _ (reuse_image-Keeps vs d2 h2) (λ d3 h3.
          then_Keeps _ _
            (if_there-Keeps (at vs "annotations") (reuse_annotations r)
              (reuse_annotations-Keeps full) d3 h3)
            (λ d4 h4. then_Keeps _ _ (reuse_state-Keeps vs d4 h4) (λ d5 h5.
              then_Keeps _ _
                (if_there-Keeps (at vs "labels") (reuse_labels r) reuse_labels-Keeps d5 h5)
                (λ d6 h6.
                  then_Keeps _ _ (if_there-Keeps (at vs "env") (reuse_env r) reuse_env-Keeps d6 h6)
                    (λ d7 h7. then_Keeps _ _ (reuse_storage-Keeps vs d7 h7) (λ d8 h8.
                      then_Keeps _ _ (ports_of-Keeps (at vs "ports") d8 h8)
                        (with_schedule-Keeps (at vs "schedule"))))))))))
