-- ===== src/Kafka/Notices.antt =====
-- The messages of the topic `delete-pod`: `nameSpace/nodeName` under the key of the new pod.
use checkpoint_operator.Base.{
  ℕ, [], ◌∷◌, some, Option-cases, index, inl, inr, sym, ap, ◌∙◌, Bytes, Lacks, index-append,
  index-Lacks, take-append_self, drop-suc-append, ◌≡◌, refl,
}
use checkpoint_operator.Outcome.{Outcome, ok, panic}
use checkpoint_operator.Cluster.{Message}
use checkpoint_operator.Kafka.{Notice, delete_message, read_notice, notice_at}

-- What the operator announces is what the daemon reads, if the namespace holds no slash.
pub read_notice-delete_message :
    (key namespace node : Bytes)
    → Lacks b'/' namespace
    → read_notice (delete_message key namespace node)
      ≡ ok (record { pod = key; namespace = namespace; node = node })
unfolding read_notice delete_message
read_notice-delete_message key namespace node h =
    rw (index-append namespace node b'/' h, notice_at)
      (cc (take-append_self namespace (b'/' ∷ node), drop-suc-append namespace node b'/'))

-- A message whose value holds no slash makes the daemon panic.
read_notice_panics : (m : Message) → Lacks b'/' m.value → read_notice m ≡ panic
unfolding read_notice
read_notice_panics m h = rw (index-Lacks m.value b'/' h, notice_at) refl

abbrev pod_or_empty : Outcome Notice → Bytes
pod_or_empty (ok n) = n.pod
pod_or_empty _ = []

notice_at-pod : (m : Message) (i : ℕ) (n : Notice) → notice_at m (some i) ≡ ok n → n.pod ≡ m.key
unfolding notice_at
notice_at-pod m i n h = sym (ap pod_or_empty h)

-- The pod of a notice is the key of its message.
pub read_notice-pod : (m : Message) (n : Notice) → read_notice m ≡ ok n → n.pod ≡ m.key
unfolding read_notice
read_notice-pod m n h = elim (Option-cases (index m.value b'/')) [
  | inl e ↦ absurd (cc (ap (notice_at m) e, h))
  | inr (i, e) ↦ notice_at-pod m i n (sym (ap (notice_at m) e) ∙ h)
]
