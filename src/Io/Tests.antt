-- ===== src/Io/Tests.antt =====
-- Runs of the stream adapters, with the cases of the tests in src/io.rs.
use wiretally.Prelude.{ℕ, ◌≡◌, refl, false, none, List, [], ◌∷◌, length, take, drop, ok, arith}
use wiretally.Text.{chars, is_empty}
use wiretally.Stats.{default_stats, add_ingress, add_egress}
use wiretally.Io.{ByteStream, ready, Side, client, upstream, Counting, counting, rewind, rewind_new}
use wiretally.Io.Run.{read, write, got, step, run}
use wiretally.Io.Metered.{Totals, counting-Totals}
use wiretally.Io.Replay.{view, in_front, rewind_new_refines}

-- `Cursor<Vec<u8>>`: reads take what is left, and writes are taken whole.
abbrev cursor : ByteStream (List ℕ)
cursor = record {
  poll_read = λ room s. (ready (ok (take room s)), drop room s);
  poll_write = λ buf s. (ready (ok (length buf)), s);
  poll_write_vectored = λ bufs s. (ready (ok 0), s);
  is_write_vectored = λ s. false;
  poll_flush = λ s. (ready (ok tt), s);
  poll_shutdown = λ s. (ready (ok tt), s);
}

abbrev fresh : Side → Counting (List ℕ)
fresh side = record {
  inner = chars "hello";
  stats = default_stats;
  side = side;
  log = none;
  lines = [];
}

client-read_is_egress :
    (run (counting cursor) (read 3 ∷ read 8 ∷ []) (fresh client)).1.stats
    ≡ record default_stats { egress = 5 }
unfolding run step counting add_egress add_ingress
client-read_is_egress = refl

upstream-write_is_egress :
    (run (counting cursor) (write (chars "abcd") ∷ []) (fresh upstream)).1.stats
    ≡ record default_stats { egress = 4 }
unfolding run step counting add_egress add_ingress
upstream-write_is_egress = refl

rewind_replays :
    (run
      (rewind cursor)
      (read 3 ∷ read 9 ∷ read 9 ∷ [])
      (rewind_new (chars "head") (chars "tail"))).0
    ≡ got (ready (ok (chars "hea")))
      ∷ got (ready (ok (chars "d")))
      ∷ got (ready (ok (chars "tail")))
      ∷ []
unfolding run step rewind rewind_new is_empty
rewind_replays = refl

counting-Totals_example : Totals cursor (read 3 ∷ write (chars "ab") ∷ read 8 ∷ []) (fresh client)
counting-Totals_example =
    counting-Totals cursor (read 3 ∷ write (chars "ab") ∷ read 8 ∷ []) (fresh client) (omega arith)

rewind_new_refines_example :
    ((run (rewind cursor) (read 3 ∷ read 9 ∷ []) (rewind_new (chars "head") (chars "tail"))).0
      ≡ (run (in_front cursor) (read 3 ∷ read 9 ∷ []) (chars "head", chars "tail")).0)
    × (view
          (run (rewind cursor) (read 3 ∷ read 9 ∷ []) (rewind_new (chars "head") (chars "tail"))).1
        ≡ (run (in_front cursor) (read 3 ∷ read 9 ∷ []) (chars "head", chars "tail")).1)
rewind_new_refines_example =
    rewind_new_refines cursor (read 3 ∷ read 9 ∷ []) (chars "head") (chars "tail")
