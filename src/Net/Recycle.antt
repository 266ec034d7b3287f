-- ===== src/Net/Recycle.antt =====
-- src/net/network.cpp: `AcquireCommand` and `ReleaseCommand`, the stack of commands for reuse, with
-- threads that take from it at the same time. Commands are known by a number and their `next` links
-- are written out. A load, a read of a link and a compare-and-swap are one step each; a weak
-- compare-and-swap may fail without a reason. A release is one step: its compare-and-swap makes
-- it so.
use titan_bench.Base.{
  ℕ, ◌+◌, Bool, false, not, ◌&&◌, List, [], ◌∷◌, Option, none, some, ◌==◌, if◌then◌else◌, get_or,
  set, find_key, put_key,
}

-- A thread outside a call, with the head that it loaded, or with its link too.
pub data Phase : Type 0 where
  outside : Phase
  has_head : Option ℕ → Phase
  has_next : ℕ → Option ℕ → Phase

-- `command_free_head`, the links, the number of the next new command, what each thread is doing,
-- and the commands handed out by `AcquireCommand` and not released, the last one first.
pub record Recycler : Type 0 where
  pub free_head : Option ℕ
  pub links : List (ℕ × Option ℕ)
  pub fresh : ℕ
  pub threads : List Phase
  pub handed : List ℕ

abbrev link_found : Option (Option ℕ) → Option ℕ
link_found none = none
link_found (some l) = l

-- `next` of a command; a new one has none.
abbrev pub link_of : ℕ → List (ℕ × Option ℕ) → Option ℕ
link_of node links = link_found (find_key node links)

unfoldable pub same_head : Option ℕ → ℕ → Bool
same_head none node = false
same_head (some h) node = h == node

abbrev pub now_in : ℕ → Phase → Recycler → Recycler
now_in i p r = record r { threads = set r.threads i p }

-- The next step of a thread in `AcquireCommand`. A swap that fails has loaded the head again.
unfoldable pub acquire_step : ℕ → Bool → Phase → Recycler → Recycler
unfolding same_head
acquire_step i spurious outside r = now_in i (has_head r.free_head) r
acquire_step i spurious (has_head none) r = record (now_in i outside r) {
  fresh = r.fresh + 1;
  handed = r.fresh ∷ r.handed;
}
acquire_step i spurious (has_head (some node)) r = now_in i (has_next node (link_of node r.links)) r
acquire_step i spurious (has_next node next) r =
    if same_head r.free_head node && not spurious
    then record (now_in i outside r) {
      free_head = next;
      links = put_key node none r.links;
      handed = node ∷ r.handed;
    }
    else now_in i (has_head r.free_head) r

abbrev pub without : ℕ → List ℕ → List ℕ
without node [] = []
without node (x ∷ xs) = let rest = without node xs in if x == node then xs else x ∷ rest

unfoldable pub release_command : ℕ → Recycler → Recycler
release_command node r = record r {
  free_head = some node;
  links = put_key node r.free_head r.links;
  handed = without node r.handed;
}

-- Who does what next: a step of `AcquireCommand` by a thread, or a release.
pub data Use : Type 0 where
  acquires : ℕ → Bool → Use
  releases : ℕ → Use

unfoldable pub recycle : List Use → Recycler → Recycler
unfolding acquire_step release_command
recycle [] r = r
recycle (acquires i spurious ∷ us) r =
    recycle us (acquire_step i spurious (get_or r.threads i outside) r)
recycle (releases node ∷ us) r = recycle us (release_command node r)
