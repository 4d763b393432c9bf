-- ===== src/Network/Reached.antt =====
-- What holds of every cluster whose nodes run src/replication/craq/craq_replication.cpp or
-- src/replication/crown/crown_replication.cpp, however their messages are delayed, reordered, repeated or
-- lost.
use mathlib.Core.Path.{subst}
use crown_kv.Common.{
  ℕ, ◌<◌, ◌≡◌, inr, refl, sym, ap, ◌∙◌, arith, none, List, [], Text, text_eq, nat_eq, length, find,
}
use crown_kv.Messages.{NodeInfo}
use crown_kv.KvStore.{KvStore}
use crown_kv.KvStore.Views.{committed, committed_version, dirty_record}
use crown_kv.Replication.{Node}
use crown_kv.Apportioned.{Roles}
use crown_kv.Network.{
  System, IsFresh, Step, write, pass, ack, take, work, retry, Reach, start, later,
}
use crown_kv.Network.Rings.{IsRing, IsRing-tail}
use crown_kv.Network.Safety.{IsStored}
use crown_kv.Network.Invariant.{Inv, Kept, take-Kept, work-Kept, retry-Kept}
use crown_kv.Network.Handlers.{AreApart}
use crown_kv.Network.Acks.{ack-Kept}
use crown_kv.Network.Arrivals.{pass-Kept, write-Kept}

abbrev empty : KvStore
empty = record { store = []; dirty_store = [] }

empty-committed : (key : Text) → committed empty key ≡ none
unfolding committed find
empty-committed key = refl

empty-committed_version : (key : Text) → committed_version empty key ≡ 0
unfolding committed_version committed find
empty-committed_version key = refl

empty-dirty_record : (key : Text) (v : ℕ) → dirty_record empty key v ≡ none
unfolding dirty_record find
empty-dirty_record key v = refl

empty-IsStored : IsStored [] empty
empty-IsStored = record {
  consistent = record {
    tagged = λ k v r e. absurd (ground (arith, e, empty-dirty_record k v));
    newer = λ k v r e. absurd (ground (arith, e, empty-dirty_record k v));
  };
  dirty = λ k v r e. absurd (ground (arith, e, empty-dirty_record k v));
  clean = λ k r e. absurd (ground (arith, e, empty-committed k));
}

module _ (roles : Roles) (members : List NodeInfo) (ring : IsRing roles (length members))
    (apart : AreApart members) where
  start-Inv :
      (nodes : ℕ → Node)
      → ((i : ℕ) → i < length members → IsFresh members i (nodes i))
      → Inv roles members (record { nodes = nodes; issued = [] })
  start-Inv nodes fresh = record {
    safe = record {
      stored = λ i l. subst (IsStored []) (sym (fresh i l).store) empty-IsStored;
      numbered = record {
        positive = λ w m. elim m [ ];
        latest = λ w m. elim m [ ];
        by_id = λ w x m k e. elim m [ ];
        by_version = λ w x m k d e. elim m [ ];
      };
      behind = λ i key l. omega (arith, zero i key l);
      held = λ i key l.
          inr (omega (arith, zero (roles.tail key n) key (IsRing-tail roles n key ring)));
    };
    sound = λ i l.
        let f = fresh i l in
        record {
          placed = f.placed;
          calls = rw f.calls tt;
          queue = rw (f.queue, f.taken) tt;
          pending = rw f.pending tt;
        };
  }
    where
      n : ℕ
      n = length members

      zero : (i : ℕ) (key : Text) → i < n → committed_version (nodes i).kv key ≡ 0
      zero i key l =
          ap (λ (s : KvStore). committed_version s key) (fresh i l).store
          ∙ empty-committed_version key

  pub Step-Kept :
      {s t : System} → Step roles members s t → Inv roles members s → Kept roles members s t
  Step-Kept {s} (write i now q l z at new room) h =
      write-Kept roles members ring s i now l h q z at new room
  Step-Kept {s} (pass i j now stub q b l m at) h =
      pass-Kept roles members ring s j now l h q i stub apart b m at
  Step-Kept {s} (ack i j stub a b l m) h = ack-Kept roles members s j l h i stub a b m
  Step-Kept {s} (take i l) h = take-Kept roles members s i l h
  Step-Kept {s} (work i k l) h = work-Kept roles members s i k l h
  Step-Kept {s} (retry i now l) h = retry-Kept roles members s i now l h

  pub Reach-Inv : {s : System} → Reach roles members s → Inv roles members s
  Reach-Inv (start nodes fresh) = start-Inv nodes fresh
  Reach-Inv (later r st) = (Step-Kept st (Reach-Inv r)).0
