-- ===== src/Forward/Samples.antt =====
-- The spool, the delivery and the tail of internal/forward at concrete inputs: a batch is its own JSON.
use omni_logging.Common.{
  ℕ, ◌^◌, ◌<◌, ◌+◌, ◌≤◌, ◌≡◌, refl, Bool, true, false, none, some, List, [], ◌∷◌, ◌++◌,
  if◌then◌else◌, ltb, arith, Bytes, length, keep,
}
use omni_logging.Wal.Record.{max_record_bytes}
use omni_logging.Wal.Samples.{all_well, empty_log, hello, one_log, one_log-IsValid, one_log_next}
use omni_logging.Forward.{Codec, Spool, AddAnswers, add, ack, for_pending}
use omni_logging.Forward.Queue.{each, outstanding, is_beyond, ack-for_pending}
use omni_logging.Forward.Delivery.{
  Response, status, broken, unsent, Round, SettleAnswers, base_backoff, max_backoff, backoff_for,
  post, deliver,
}
use omni_logging.Forward.Settled.{queue_behind, deliver-queue_behind}
use omni_logging.Forward.Retries.{EndsWithin, post-EndsWithin, doubled, backoff_for-doubled}
use omni_logging.Forward.Tailing.{poll, SendEvent, line, tick, closed, send}
use omni_logging.Forward.Lines.{followed, tail_at, grown, poll-followed}
use omni_logging.Forward.Batching.{IsWhole, send-IsWhole}

abbrev verbatim : Codec Bytes Bytes
verbatim = record { encode = λ b. some b; decode = λ b. some b; encode_dead = λ b. some b }

abbrev empty_spool : Spool
empty_spool = record { wal = empty_log; dead_open = false; dead_file = [] }

abbrev unsynced_add : AddAnswers
unsynced_add = record { log = all_well; synced = false }

hello_fits : length hello ≤ max_record_bytes
hello_fits = omega arith

has_room : empty_spool.wal.next_seq + 1 < 2 ^ 64
has_room = omega arith

-- A spool of one batch.
abbrev one_spool : Spool
one_spool = record { wal = one_log; dead_open = false; dead_file = [] }

given_out : 1 < one_spool.wal.next_seq
given_out = omega (arith, one_log_next)

one_has_room : one_spool.wal.next_seq + 1 < 2 ^ 64
one_has_room = omega (arith, one_log_next)

abbrev collect : ℕ → Bytes → List ℕ → List ℕ × Bool
collect n b st = (n ∷ st, true)

ack-for_pending_example :
    for_pending verbatim collect (ack verbatim true 1 one_spool).0 []
    ≡ each
        (λ (q : ℕ × Bytes). collect q.0 q.1)
        (keep (is_beyond verbatim 1) (outstanding verbatim one_spool))
        []
ack-for_pending_example =
    ack-for_pending verbatim true 1 one_spool collect [] one_log-IsValid given_out

abbrev fine : SettleAnswers
fine = record { written = true; dead = record { opened = true; cut_short = none; synced = true } }

abbrev round : Response → Round
round r = record { cancelled = false; response = r }

-- The server is away twice, then takes the batch.
abbrev rounds : List Round
rounds = round (broken false) ∷ round (status 503) ∷ round (status 200) ∷ []

-- A batch is delivered while another one, which was abandoned, still waits.
deliver-queue_behind_example :
    outstanding verbatim (deliver verbatim (λ b. b) unsynced_add fine rounds hello one_spool).0
    ≡ queue_behind verbatim
        (λ b. b)
        one_spool
        hello
        (add verbatim unsynced_add hello one_spool).1
        (post true rounds)
deliver-queue_behind_example =
    deliver-queue_behind verbatim (λ b. b) unsynced_add fine rounds hello hello one_spool refl refl
      refl hello_fits one_has_room one_log-IsValid

abbrev refusals : List Round
refusals =
    round (status 503)
    ∷ round (status 429)
    ∷ round (broken false)
    ∷ round unsent
    ∷ round (status 500)
    ∷ round (status 503)
    ∷ round (status 200)
    ∷ []

post-EndsWithin_example : EndsWithin refusals 6 (post false refusals)
post-EndsWithin_example = post-EndsWithin refusals (omega arith)

backoff_for-doubled_example :
    backoff_for base_backoff max_backoff (40 + 1) ≡ (if ltb 40 6 then doubled 40 else max_backoff)
backoff_for-doubled_example = backoff_for-doubled 40

-- A line is there, and the first half of another.
abbrev half : Bytes
half = 104 ∷ 105 ∷ 13 ∷ 10 ∷ 111 ∷ []

abbrev other_half : Bytes
other_half = 107 ∷ 10 ∷ []

poll-followed_example :
    followed
      (poll (tail_at 7 0) (grown 7 4 half))
      (λ t. poll t (grown 7 (length (half ++ other_half)) (half ++ other_half)))
    ≡ poll (tail_at 7 0) (grown 7 (length (half ++ other_half)) (half ++ other_half))
poll-followed_example = poll-followed 7 0 4 half other_half (omega arith) (omega arith)

abbrev events : List SendEvent
events = line hello ∷ line hello ∷ line hello ∷ tick ∷ line hello ∷ closed ∷ []

send-IsWhole_example : IsWhole 2 [] events (send 2 [] events)
send-IsWhole_example = send-IsWhole 2 [] events (omega arith)
