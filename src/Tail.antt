-- ===== src/Tail.antt =====
-- The live-tail hub (internal/tail/hub.go). A subscriber's channel is the list of the events that
-- wait in it; the events, the queries and their matching are parameters. `Publish` goes through the
-- subscribers in the order of the list; the order of Go's map does not change what each one gets.
pub mod Publishing
mod Samples
use omni_logging.Common.{
  ℕ, zero, suc, ◌+◌, ◌-◌, Bool, true, false, not, ◌&&◌, ◌||◌, Option, none, some, List, [], ◌∷◌,
  ◌++◌, ltb, leb, ◌==◌, if◌then◌else◌, length, keep,
}

pub record Subscriber (E Q : Type 0) : Type 0 where
  pub id : ℕ
  pub query : Q
  pub capacity : ℕ
  pub channel : List E
  pub dropped : ℕ
  pub evicted : Bool

-- `max_drops` is 0 where eviction is off.
pub record Hub (E Q : Type 0) : Type 0 where
  pub subs : List (Subscriber E Q)
  pub max_drops : ℕ
  pub dropped_total : ℕ
  pub evicted_total : ℕ

-- A subscriber while events are delivered to it.
pub record Delivery (E Q : Type 0) : Type 0 where
  pub sub : Subscriber E Q
  pub total : ℕ
  pub slow : Bool

-- The subscribers behind a `Publish`: those that stay and those that are evicted.
pub record Fanout (E Q : Type 0) : Type 0 where
  pub stay : List (Subscriber E Q)
  pub gone : List (Subscriber E Q)
  pub total : ℕ

module _ {E Q : Type 0} (matches : Q → E → Bool) where
  -- A channel holds one event at least.
  unfoldable pub subscribe : ℕ → Q → ℕ → Hub E Q → Hub E Q
  subscribe id q buffer h =
      let s : Subscriber E Q = record {
        id = id;
        query = q;
        capacity = if ltb buffer 1 then 1 else buffer;
        channel = [];
        dropped = 0;
        evicted = false;
      } in
      record h { subs = s ∷ h.subs }

  -- One event to one subscriber: a full channel drops it, and the drop that reaches the limit marks
  -- the subscriber for eviction.
  unfoldable pub deliver : ℕ → E → Delivery E Q → Delivery E Q
  deliver max_drops e d =
      if not (matches d.sub.query e)
      then d
      else if ltb (length d.sub.channel) d.sub.capacity
      then record d { sub = record (d.sub) { channel = d.sub.channel ++ e ∷ [] } }
      else record {
        sub = record (d.sub) { dropped = d.sub.dropped + 1 };
        total = d.total + 1;
        slow = d.slow || (ltb 0 max_drops && (d.sub.dropped + 1 == max_drops));
      }

  unfoldable pub deliver_all : ℕ → List E → Delivery E Q → Delivery E Q
  unfolding deliver
  deliver_all max_drops [] d = d
  deliver_all max_drops (e ∷ es) d = deliver_all max_drops es (deliver max_drops e d)

  -- The loop over the subscribers, with `droppedTotal`, and the evictions behind it.
  unfoldable pub publish_subs : ℕ → List E → ℕ → List (Subscriber E Q) → Fanout E Q
  unfolding deliver_all
  publish_subs max_drops es total [] = record { stay = []; gone = []; total = total }
  publish_subs max_drops es total (s ∷ ss) =
      let d = deliver_all max_drops es (record { sub = s; total = total; slow = false }) in
      let f = publish_subs max_drops es d.total ss in
      if d.slow
      then record f { gone = record (d.sub) { evicted = true } ∷ f.gone }
      else record f { stay = d.sub ∷ f.stay }

  -- `Publish`. The subscribers whose channel was closed are handed back.
  unfoldable pub publish : List E → Hub E Q → Hub E Q × List (Subscriber E Q)
  unfolding publish_subs
  publish es h =
      let f = publish_subs h.max_drops es h.dropped_total h.subs in
      (
        record h {
          subs = f.stay;
          dropped_total = f.total;
          evicted_total = h.evicted_total + length f.gone;
        },
        f.gone,
      )

  -- `Close`: a subscriber that is not registered is left alone.
  unfoldable pub close : ℕ → Hub E Q → Hub E Q
  close id h = record h { subs = keep (λ (s : Subscriber E Q). not (s.id == id)) h.subs }
