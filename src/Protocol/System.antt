-- ===== src/Protocol/System.antt =====
-- One host and one cluster over one mailbox, one step of either at a time. The mailbox stands in
-- both records and is written in both.
use k9r.Base.{ℕ, ◌+◌, ◌≡◌, ◌≢◌, some, update, Bool, true, false, not, ◌&&◌, ◌==◌}
use k9r.Machine.{Config}
use k9r.Job.{Mailbox}
use k9r.Host.State.{Host}
use k9r.Host.Post.{Descriptor, post}
use k9r.Cluster.Scratch.{Heap}
use k9r.Cluster.Loop.{Cluster, wake, finish}

-- Where the control core stands: at the doorbell, or between the barriers of a job.
pub data Phase : Type 0 where
  asleep running : Phase

-- What the program does not keep: `waiting` is whether the host is in the loop of `hes_wait`, `posted`
-- the mailbox as the last post left it, `nb_posts` the number of posts that were taken, and
-- `abandoned` whether a wait has given up and the job of the mailbox is not done yet.
pub record System : Type 0 where
  pub host : Host
  pub cluster : Cluster
  pub phase : Phase
  pub waiting : Bool
  pub posted : Mailbox
  pub nb_posts : ℕ
  pub abandoned : Bool

module _ (c : Config) (heap : Heap) (engine : ℕ) where
  -- The cluster has moved: the host sees its mailbox.
  abbrev pub cluster_moves : System → Cluster → Phase → System
  cluster_moves s t p = record s {
    host = record s.host { mbox = update s.host.mbox engine t.mbox };
    cluster = t;
    phase = p;
  }

  -- The host has moved: the cluster sees its mailbox.
  abbrev pub host_posts : System → Host → System
  host_posts s h = record s {
    host = h;
    cluster = record s.cluster { mbox = h.mbox engine };
    posted = h.mbox engine;
    nb_posts = s.nb_posts + 1;
  }

  -- The control core publishes the job that it has served.
  abbrev pub cluster_finishes : ℕ → System → System
  cluster_finishes now s = record (cluster_moves s (finish c now s.cluster) asleep) {
    abandoned = s.abandoned && not (s.cluster.served == s.cluster.mbox.seq);
  }

  -- A step of the cluster.
  pub data Work (s : System) : System → Type 0 where
    wakes :
        (now : ℕ) (t : Cluster)
        → s.phase ≡ asleep
        → wake c heap now s.cluster ≡ some t
        → Work s (cluster_moves s t running)
    finishes : (now : ℕ) → s.phase ≡ running → Work s (cluster_finishes now s)

  -- A step of the cluster or of the host, which does not post while it waits. A wait clears the flag
  -- before it polls; it ends with a poll that finds the job done, or gives up after one that does
  -- not. The polls in between change nothing.
  pub data Step (s : System) : System → Type 0 where
    works : {t : System} → Work s t → Step s t
    posts :
        (d : Descriptor) (h : Host)
        → s.waiting ≡ false
        → post engine d s.host ≡ (h, 0)
        → Step s (host_posts s h)
    waits :
        s.waiting ≡ false
        → s.host.in_flight engine ≢ 0
        → Step s (record s {
          host = record s.host { in_flight = update s.host.in_flight engine 0 };
          waiting = true;
        })
    collects :
        s.waiting ≡ true
        → (s.host.mbox engine).done_seq ≡ s.host.next_seq engine
        → Step s (record s { waiting = false })
    gives_up :
        s.waiting ≡ true
        → (s.host.mbox engine).done_seq ≢ s.host.next_seq engine
        → Step s (record s { waiting = false; abandoned = true })

  pub data Reach (s : System) : System → Type 0 where
    here : Reach s s
    next : {t u : System} → Reach s t → Step t u → Reach s u

  -- Steps of the cluster alone.
  pub data Works (s : System) : System → Type 0 where
    halt : Works s s
    more : {t u : System} → Works s t → Work t u → Works s u
