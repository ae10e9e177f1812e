-- ===== src/Trials/Found.antt =====
-- When the command line consumer leaves its loop.
use checkpoint_operator.Base.{
  List, [], ◌∷◌, ◌++◌, Bool, true, false, if◌then◌else◌, ◌≡◌, refl, ap, sym, ◌∙◌, Bool-cases, inl,
  inr,
}
use checkpoint_operator.Outcome.{ok}
use checkpoint_operator.Cluster.{Message, Trace, fetch, commit}
use checkpoint_operator.Proc.{◌>>=◌, on_error, call, return}
use checkpoint_operator.Trials.{Delivery, delivered, is_kafka_message, found, consume_until}

-- Messages whose commits succeed.
abbrev served : List Message → List Delivery
served [] = []
served (m ∷ ms) = delivered m (ok tt) (ok tt) ∷ served ms

abbrev none_found : List Message → Bool
none_found [] = true
none_found (m ∷ ms) = if is_kafka_message m then false else none_found ms

-- The calls for messages that are passed over: each is fetched and committed.
abbrev passed : List Message → Trace → Trace
passed [] t = t
passed (m ∷ ms) t = passed ms (commit m ∷ fetch ∷ t)

-- Where every commit succeeds, the consumer leaves its loop at the first message that is the one it
-- looks for: each message before it is fetched and committed once, this one is committed twice, and
-- nothing is fetched after it.
consume_until-found :
    {S : Type 0} (before : List Message) (m : Message) (after : List Delivery) (s : S) (t : Trace)
    → none_found before ≡ true
    → is_kafka_message m ≡ true
    → let r = consume_until (served before ++ delivered m (ok tt) (ok tt) ∷ after) s t in
      (r.outcome ≡ ok found) × (r.trace ≡ commit m ∷ commit m ∷ fetch ∷ passed before t)
unfolding consume_until ◌>>=◌ on_error call return
consume_until-found [] m after s t h e = rw e (refl, refl)
consume_until-found (x ∷ before) m after s t h e = elim (Bool-cases (is_kafka_message x)) [
  | inl same ↦ absurd (cc (h, ap (λ b. if b then false else none_found before) same))
  | inr other ↦ rw other (
      consume_until-found before m after s (commit x ∷ fetch ∷ t)
        (ap (λ b. if b then false else none_found before) (sym other) ∙ h) e)
]
