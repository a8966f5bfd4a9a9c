-- ===== src/Loop.antt =====
-- The loop and its handles: struct uv_loop_s and uv_handle_t (libuv/include/uv.h) and the macros of
-- libuv/src/uv-common.h on them. A handle stands at an address; the queues of the loop are lists of
-- addresses (the module Queue relates the macros of libuv/src/queue.h to lists).
pub mod Count
pub mod Fields
pub mod Handles
pub mod Walk
pub mod Tests
use libuv_analyse.Base.{
  ℕ, zero, suc, ◌+◌, ◌-◌, ◌%◌, ◌^◌, Bool, true, false, ◌&&◌, ◌||◌, not, List, [], ◌∷◌, ◌++◌, ltb,
  ◌==◌, if◌then◌else◌,
}
use libuv_analyse.Heap.{Heap, Ptr}

-- UV_HANDLE_TYPE_MAP.
pub data HandleType : Type 0 where
  async check fs_event fs_poll idle named_pipe poll prepare process tcp timer tty udp signal :
      HandleType

-- A handle: its type, the flags that all handles use, and the fields of the timers and of the idle,
-- prepare and check handles. A callback is an address, 0 is NULL.
pub record Handle : Type 0 where
  pub type : HandleType
  pub closing : Bool
  pub closed : Bool
  pub active : Bool
  pub referenced : Bool
  pub internal : Bool
  pub close_cb : Ptr
  pub watcher_cb : Ptr
  pub timer_cb : Ptr
  pub timeout : ℕ
  pub repeat : ℕ
  pub start_id : ℕ

-- `moved` is the local queue of the uv__run_idle, uv__run_prepare, uv__run_check or uv__run_pending that is running,
-- which QUEUE_REMOVE reaches as well.
pub record Loop : Type 0 where
  pub handle : Ptr → Handle
  pub handle_queue : List Ptr
  pub closing_handles : List Ptr
  pub idle_handles : List Ptr
  pub prepare_handles : List Ptr
  pub check_handles : List Ptr
  pub moved : List Ptr
  pub pending_queue : List Ptr
  pub watcher_queue : List Ptr
  pub timer_heap : Heap
  pub timer_counter : ℕ
  pub time : ℕ
  pub active_handles : ℕ
  pub active_reqs : ℕ
  pub stop_flag : ℕ

-- What a function returns: 0 or an error number.
pub data Status : Type 0 where
  success einval ebusy : Status

abbrev pub store : (Ptr → Handle) → Ptr → Handle → Ptr → Handle
store f p v a = if a == p then v else f a

abbrev pub set_handle : Ptr → Handle → Loop → Loop
set_handle p v l = record l { handle = store l.handle p v }

unfoldable pub active_handle_add : Loop → Loop
active_handle_add l = record l { active_handles = (l.active_handles + 1) % 2 ^ 32 }

-- `active_handles--` on an `unsigned int`.
unfoldable pub active_handle_rm : Loop → Loop
active_handle_rm l = record l { active_handles = (l.active_handles + (2 ^ 32 - 1)) % 2 ^ 32 }

abbrev pub is_active : Ptr → Loop → Bool
is_active p l = (l.handle p).active

abbrev pub is_closing : Ptr → Loop → Bool
is_closing p l = (l.handle p).closing || (l.handle p).closed

abbrev pub has_active_handles : Loop → Bool
has_active_handles l = ltb 0 l.active_handles

abbrev pub has_active_reqs : Loop → Bool
has_active_reqs l = ltb 0 l.active_reqs

abbrev pub has_ref : Ptr → Loop → Bool
has_ref p l = (l.handle p).referenced

-- The new `active_reqs.count`, an `unsigned int`; uv__req_init registers the request as well.
abbrev pub req_register : ℕ → ℕ
req_register count = (count + 1) % 2 ^ 32

abbrev pub req_unregister : ℕ → ℕ
req_unregister count = (count + (2 ^ 32 - 1)) % 2 ^ 32

unfoldable pub handle_init : HandleType → Ptr → Loop → Loop
handle_init type p l =
    let v = record (l.handle p) {
      type = type;
      closing = false;
      closed = false;
      active = false;
      referenced = true;
      internal = false;
    } in
    record (set_handle p v l) { handle_queue = l.handle_queue ++ (p ∷ []) }

unfoldable pub handle_start : Ptr → Loop → Loop
unfolding active_handle_add
handle_start p l =
    let h = l.handle p in
    let l₁ = set_handle p (record h { active = true }) l in
    if h.active then l else if h.referenced then active_handle_add l₁ else l₁

unfoldable pub handle_stop : Ptr → Loop → Loop
unfolding active_handle_rm
handle_stop p l =
    let h = l.handle p in
    let l₁ = set_handle p (record h { active = false }) l in
    if not h.active then l else if h.referenced then active_handle_rm l₁ else l₁

unfoldable pub handle_ref : Ptr → Loop → Loop
unfolding active_handle_add
handle_ref p l =
    let h = l.handle p in
    let l₁ = set_handle p (record h { referenced = true }) l in
    if h.referenced
    then l
    else if h.closing
    then l₁
    else if h.active
    then active_handle_add l₁
    else l₁

unfoldable pub handle_unref : Ptr → Loop → Loop
unfolding active_handle_rm
handle_unref p l =
    let h = l.handle p in
    let l₁ = set_handle p (record h { referenced = false }) l in
    if not h.referenced
    then l
    else if h.closing
    then l₁
    else if h.active
    then active_handle_rm l₁
    else l₁
