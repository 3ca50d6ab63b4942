-- ===== src/Vault/Reach.antt =====
-- The invariants of the database in every state that a vault can come to.
use synch_api.Prelude.{refl, true}
use synch_api.Store.Rows.{Database}
use synch_api.Store.Sizes.{total_size}
use synch_api.Commit.Loop.{commit_transaction-AllLive}
use synch_api.Blobs.Live.{
  IsSound, stage_blob_record-IsSound, delete_unreferenced_staged_blob-IsSound,
  mark_unpinned_blob_pending_delete-IsSound, delete_collectible_blob_records-IsSound,
}
use synch_api.Blobs.Collect.{delete_blob_finish-IsSound}
use synch_api.Blobs.Service.{delete_then}
use synch_api.Vault.Accounts.{Step-IsAccounted}
use synch_api.Vault.Steps.{
  Step, Reach, Turn, System, idle, Unnamed, transact, ask_delete, end_delete, lose_delete, purge,
  purge_vault_state, commit, stage, drop_staged, retire, collect, forget_history, expire, ensure,
  set_policy, pause, resume, complete_gc, start, after,
}

-- Every transaction keeps a live record behind each blob that a current entry names, and the
-- storage counter equal to the bytes of the records.
pub Step-IsSound : {db db' : Database} → Step db db' → IsSound db → IsSound db'
Step-IsSound {db} (commit ctx ms db' c st is here e) s = record {
  live = commit_transaction-AllLive ctx ms db db' c e s.live;
  accounted = Step-IsAccounted (commit ctx ms db' c st is here e) s.accounted;
}
Step-IsSound {db} (stage id size now deadline db' d e) s =
    stage_blob_record-IsSound db db' id size now deadline d e s
Step-IsSound {db} (drop_staged id now) s = delete_unreferenced_staged_blob-IsSound db id now s
Step-IsSound {db} (retire id now) s = mark_unpinned_blob_pending_delete-IsSound db id now s
Step-IsSound {db} (collect ids now) s = delete_collectible_blob_records-IsSound db ids now s
Step-IsSound {db} (forget_history id) s = record {
  live = s.live;
  accounted = Step-IsAccounted {db = db} (forget_history id) s.accounted;
}
Step-IsSound {db} (expire now) s = record {
  live = s.live;
  accounted = Step-IsAccounted {db = db} (expire now) s.accounted;
}
Step-IsSound {db} (ensure vault_id limits state e) s = record {
  live = s.live;
  accounted = Step-IsAccounted {db = db} (ensure vault_id limits state e) s.accounted;
}
Step-IsSound {db} (set_policy vault_id limits state applied e) s = record {
  live = s.live;
  accounted = Step-IsAccounted {db = db} (set_policy vault_id limits state applied e) s.accounted;
}
Step-IsSound {db} (pause now reason) s = record {
  live = s.live;
  accounted = Step-IsAccounted {db = db} (pause now reason) s.accounted;
}
Step-IsSound {db} resume s = record {
  live = s.live;
  accounted = Step-IsAccounted {db = db} resume s.accounted;
}
Step-IsSound {db} (complete_gc now) s = record {
  live = s.live;
  accounted = Step-IsAccounted {db = db} (complete_gc now) s.accounted;
}

-- Whatever a vault has gone through from an empty database, where no deletion of a blob ends while a
-- current entry names the blob, each blob that a current entry names has a live record, and the
-- storage counter is the sum of the records' bytes.
pub Reach-IsSound : {s : System} → Reach Unnamed Unit idle s → IsSound s.db
unfolding total_size purge_vault_state
Reach-IsSound r = from r (record { live = tt; accounted = refl })
  where
    turn : {s s' : System} → Turn Unnamed Unit s s' → IsSound s.db → IsSound s'.db
    turn (transact db' step) sound = Step-IsSound step sound
    turn (ask_delete id now e) sound = sound
    turn {s} (end_delete before id rest e free) sound =
        delete_blob_finish-IsSound (delete_then true) s.db id free sound
    turn (lose_delete before id rest e) sound = sound
    turn (purge may) sound = record { live = tt; accounted = refl }

    from :
        {first last : System} → Reach Unnamed Unit first last → IsSound first.db → IsSound last.db
    from start sound = sound
    from (after r one) sound = turn one (from r sound)
