-- ===== src/Aggregator/Drain.antt =====
-- internal/aggregator/aggregator.go: the alerts in the batches of FlushAll.
use mathlib.Core.List.{append-nil, append_assoc}
use mathlib.Core.Path.{subst}
use docker_monitor.Aggregator.{
  Aggregator, add_event, admit, drain_all, drain_groups, flush_all, hand_over, is_backfilling,
  mark_all,
}
use docker_monitor.Aggregator.Conservation.{
  IgnoresQuiet-buffered, OnlyAlerts, Values-map, admit-conserves, buffered, flagged-quiet, in_batch,
}
use docker_monitor.Aggregator.Evict.{GroupBuffer, evict_groups}
use docker_monitor.Aggregator.Evict.Victims.{total-evict_groups}
use docker_monitor.Aggregator.Invariant.{BufferInv, IsValid, evict_groups-Groups}
use docker_monitor.Aggregator.Preserve.{admit-IsValid}
use docker_monitor.Aggregator.Touch.{IsFlagged}
use docker_monitor.Model.{LogBatch, LogEvent, Sink, Time, append_all, recorded}
use docker_monitor.Prelude.{
  Bool, Bool-cases, List, Option, [], ap, arith, count, inl, inr, length, none, not, refl, some,
  sym, true, ℕ, ◌++◌, ◌+◌, ◌==◌, ◌||◌, ◌∙◌, ◌∷◌, ◌≡◌,
}
use docker_monitor.Prelude.Assoc.{Assoc, Values}
use docker_monitor.Prelude.Bytes.{Bytes}
use docker_monitor.Prelude.Sort.{count-sort_by}

abbrev pub delivered : (LogEvent → Bool) → List LogBatch → ℕ
delivered p [] = 0
delivered p (b ∷ bs) = count p b.events + delivered p bs

pub delivered-append :
    (p : LogEvent → Bool) (bs cs : List LogBatch)
    → delivered p (bs ++ cs) ≡ delivered p bs + delivered p cs
delivered-append p [] cs = omega arith
delivered-append p (b ∷ bs) cs = omega (arith, delivered-append p bs cs)

delivered-mark_all :
    (p : LogEvent → Bool) (s : Bool) (bs : List LogBatch)
    → delivered p (mark_all s bs) ≡ delivered p bs
delivered-mark_all p s [] = refl
delivered-mark_all p s (b ∷ bs) = ground (arith, delivered-mark_all p s bs)

-- A recorded store records the batches in their order, whatever errors the store returns.
pub append_all-recorded :
    {S : Type 0} (sink : Sink S) (bs : List LogBatch) (s : S) (log : List LogBatch)
    → (append_all (recorded sink) bs (s, log)).1.1 ≡ log ++ bs
unfolding append_all
append_all-recorded sink [] s log = sym (append-nil log)
append_all-recorded sink (b ∷ bs) s log =
    append_all-recorded sink bs (sink b s).1 (log ++ b ∷ []) ∙ append_assoc log (b ∷ []) bs

module _ (p : LogEvent → Bool) (only : OnlyAlerts p) where
  count-empty : (es : List LogEvent) → length es ≡ 0 → count p es ≡ 0
  count-empty [] h = refl
  count-empty (e ∷ es) h = absurd (omega arith)

  -- What drainAll leaves behind holds no alert.
  count-stay :
      (b : GroupBuffer)
      → IsFlagged b
      → (length b.events == 0 || not b.has_alert) ≡ true
      → count p b.events ≡ 0
  count-stay b f h = ground (arith, count-empty b.events, flagged-quiet p only b f)

  drain_groups-conserves :
      (flushed_at : Bytes → Time) (groups : Assoc GroupBuffer)
      → Values IsFlagged groups
      → (delivered p (drain_groups flushed_at groups).0 ≡ buffered p groups)
        × (buffered p (drain_groups flushed_at groups).1 ≡ 0)
  unfolding drain_groups
  drain_groups-conserves flushed_at [] h = (refl, refl)
  drain_groups-conserves flushed_at ((k, b) ∷ groups) h =
      let (out, kept) = drain_groups-conserves flushed_at groups h.1 in
      elim (Bool-cases (length b.events == 0 || not b.has_alert)) [
        | inl stay ↦ rw stay (
          omega (arith, out, kept, count-stay b h.0 stay),
          omega (arith, kept, count-stay b h.0 stay),
        )
        | inr sent ↦
            rw sent
              (omega (arith, out, count-sort_by (λ (e : LogEvent). e.timestamp) p b.events), kept)
      ]

  module _ {S : Type 0} (sink : Sink S) where
    -- What flush_all hands over, and that nothing is left.
    pub flush_all-delivers :
        (a : Aggregator) (now : Time) (flushed_at : Bytes → Time) (s : S) (log : List LogBatch)
        → IsValid a
        → (delivered p (flush_all (recorded sink) now flushed_at (a, (s, log))).1.1.1
            ≡ delivered p log + buffered p a.groups)
          × (buffered p (flush_all (recorded sink) now flushed_at (a, (s, log))).1.0.groups ≡ 0)
    unfolding flush_all drain_all
    flush_all-delivers a now flushed_at s log v =
        let here = evict_groups a.group_ttl a.max_groups now a.groups in
        let valid =
          evict_groups-Groups a.max_group_size a.flush_size a.group_ttl a.max_groups now a.groups
            (v.distinct, v.buffers) in
        let (out, kept) = drain_groups-conserves flushed_at here (
          Values-map (BufferInv a.max_group_size a.flush_size) IsFlagged here (λ b i. i.flagged)
            valid.1) in
        let marked =
          mark_all (is_backfilling (drain_all a now flushed_at).0)
            (drain_groups flushed_at here).0 in
        (
          ap (delivered p) (append_all-recorded sink marked s log)
              ∙ omega (
                arith,
                delivered-append p log marked,
                delivered-mark_all p (is_backfilling (drain_all a now flushed_at).0)
                    (drain_groups flushed_at here).0,
                out,
                total-evict_groups (λ b. count p b.events) a.group_ttl a.max_groups now a.groups
                    v.distinct
                    (IgnoresQuiet-buffered p only a.max_group_size a.flush_size a.groups v.buffers),
              ),
          kept,
        )

    hand_over-delivers :
        (a : Aggregator) (o : Option LogBatch) (s : S) (log : List LogBatch)
        → (delivered p (hand_over (recorded sink) a o (s, log)).1.1.1
            ≡ delivered p log + in_batch p o)
          × ((hand_over (recorded sink) a o (s, log)).1.0 ≡ a)
    unfolding hand_over
    hand_over-delivers a none s log = (omega arith, refl)
    hand_over-delivers a (some b) s log = (omega (arith, delivered-append p log (b ∷ [])), refl)

    -- What Add hands over.
    pub add_event-delivers :
        (a : Aggregator) (event : LogEvent) (now flushed_at : Time) (s : S) (log : List LogBatch)
        → IsValid a
        → (delivered p (add_event (recorded sink) event now flushed_at (a, (s, log))).1.1.1
              + buffered p (add_event (recorded sink) event now flushed_at (a, (s, log))).1.0.groups
            ≡ delivered p log + buffered p a.groups + count p (event ∷ []))
          × IsValid (add_event (recorded sink) event now flushed_at (a, (s, log))).1.0
    unfolding add_event
    add_event-delivers a event now flushed_at s log v =
        let (out, same) =
          hand_over-delivers (admit a event now flushed_at).0 (admit a event now flushed_at).1 s
            log in
        (
          omega (
            arith,
            out,
            ap (λ (x : Aggregator). buffered p x.groups) same,
            admit-conserves p only a event now flushed_at v,
          ),
          subst IsValid (sym same) (admit-IsValid a event now flushed_at v),
        )
