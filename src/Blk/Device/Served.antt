-- ===== src/Blk/Device/Served.antt =====
-- What holds of every queue whatever the guest writes: what the worker relies on.
use nesbox.Base.{
  ℕ, ◌≤◌, ◌≡◌, sym, ◌∙◌, subst, Bool, true, false, ◌&&◌, List, [], ◌∷◌, map, get_elem?, has_bit,
  All, All-set, All-get_elem?, arith, ltb, ◌==◌, if-holds, inl, inr, Option-cases,
}
use nesbox.Virtqueue.{QState, set_queue_size}
use nesbox.Transport.{
  Field, field_of, device_feat_sel, queue_size, queue_msix, queue_enable, driver_feat_sel,
  driver_feat, msix_config, status, queue_sel,
}
use nesbox.Transport.Words.{KeepsQueue, write_queue_addr-KeepsQueue}
use nesbox.Blk.Device.{
  BlkDevice, Queue, Act, max_size, fresh_queue, negotiated, latch, reset_queue, write_status,
  write_queue, write_selected, com_write_at, com_write, write_table, read_isr, bar0_read,
  bar0_write, write_config,
}

-- The queue has at most 256 entries, and it follows indirect descriptors or uses event indexes only
-- if the device offers that.
unfoldable pub IsLimited : ℕ → Queue → Type 0
IsLimited features q =
    (q.queue.size ≤ max_size)
    × (q.queue.indirect ≡ true → has_bit features 28 ≡ true)
    × (q.queue.event_idx ≡ true → has_bit features 29 ≡ true)

-- The device offers `features`, and all its queues are so limited.
abbrev pub IsServed : ℕ → BlkDevice → Type 0
IsServed features d = (d.features ≡ features) × All (IsLimited features) d.queues

write_queue-IsLimited :
    (f : Field) (features : ℕ) (q : Queue) (off v3 v2 : ℕ)
    → IsLimited features q
    → IsLimited features (record q { queue = write_queue f q.queue off v3 v2 })
unfolding IsLimited write_queue KeepsQueue set_queue_size
write_queue-IsLimited queue_size features q off v3 v2 h =
    if-holds (λ (s : QState). IsLimited features (record q { queue = s })) (ltb max_size v2)
      (λ _. (omega arith, h.1, h.2)) (λ e. (ground arith, h.1, h.2))
write_queue-IsLimited queue_msix features q off v3 v2 h = h
write_queue-IsLimited queue_enable features q off v3 v2 h = h
write_queue-IsLimited _ features q off v3 v2 h =
    let kept = write_queue_addr-KeepsQueue q.queue off v3 in
    (omega (arith, h.0, kept.0), λ e. h.1 (sym kept.3 ∙ e), λ e. h.2 (sym kept.4 ∙ e))

write_selected-IsServed :
    (f : Field) (features : ℕ) (d : BlkDevice) (off v3 v2 : ℕ)
    → IsServed features d
    → IsServed features (write_selected f d off v3 v2)
unfolding write_selected
write_selected-IsServed f features d off v3 v2 h = elim (Option-cases (get_elem? d.queues d.qs)) [
  | inl e ↦ rw (e, write_selected) h
  | inr (q, e) ↦
      rw (e, write_selected)
        (
          h.0,
          All-set (IsLimited features) d.queues d.qs h.1 (
              write_queue-IsLimited f features q off v3 v2
                (All-get_elem? (IsLimited features) d.queues d.qs h.1 e)),
        )
]

All-mapped :
    (P : Queue → Type 0) (f : Queue → Queue)
    → ((q : Queue) → P q → P (f q))
    → (qs : List Queue) → All P qs
    → All P (map f qs)
All-mapped P f keep [] h = tt
All-mapped P f keep (q ∷ qs) h = (keep q h.0, All-mapped P f keep qs h.1)

reset_queue-IsLimited :
    (features : ℕ) (q : Queue) → IsLimited features q → IsLimited features (reset_queue q)
unfolding IsLimited reset_queue fresh_queue
reset_queue-IsLimited features q h = (omega arith, λ e. cc, λ e. cc)

both_right : (a b : Bool) → (a && b) ≡ true → b ≡ true
both_right true b e = e
both_right false b e = cc

latch-IsLimited :
    (features : ℕ) (d : BlkDevice) (q : Queue)
    → d.features ≡ features
    → IsLimited features q
    → IsLimited features (latch (negotiated d 28) (negotiated d 29) q)
unfolding IsLimited latch negotiated
latch-IsLimited features d q same h = (
  h.0,
  λ e. subst (λ s. has_bit s 28 ≡ true) same (both_right (has_bit d.common.df 28) _ e),
  λ e. subst (λ s. has_bit s 29 ≡ true) same (both_right (has_bit d.common.df 29) _ e),
)

write_status-IsServed :
    (features : ℕ) (d : BlkDevice) (v1 : ℕ)
    → IsServed features d
    → IsServed features (write_status d v1).0
unfolding write_status
write_status-IsServed features d v1 h =
    if-holds (λ (r : BlkDevice × List Act). IsServed features r.0) (v1 == 0)
      (λ _. (
        h.0,
        All-mapped (IsLimited features) reset_queue (reset_queue-IsLimited features) _ latched,
      ))
      (λ _. (h.0, latched))
  where
    latched : All (IsLimited features) (map (latch (negotiated d 28) (negotiated d 29)) d.queues)
    latched =
        All-mapped (IsLimited features) (latch (negotiated d 28) (negotiated d 29))
          (λ q. latch-IsLimited features d q h.0) d.queues h.1

com_write_at-IsServed :
    (f : Field) (features : ℕ) (d : BlkDevice) (off v3 v2 v1 : ℕ)
    → IsServed features d
    → IsServed features (com_write_at f d off v3 v2 v1).0
unfolding com_write_at
com_write_at-IsServed device_feat_sel features d off v3 v2 v1 h = h
com_write_at-IsServed driver_feat_sel features d off v3 v2 v1 h = h
com_write_at-IsServed driver_feat features d off v3 v2 v1 h = h
com_write_at-IsServed msix_config features d off v3 v2 v1 h = h
com_write_at-IsServed status features d off v3 v2 v1 h = write_status-IsServed features d v1 h
com_write_at-IsServed queue_sel features d off v3 v2 v1 h = h
com_write_at-IsServed f features d off v3 v2 v1 h = write_selected-IsServed f features d off v3 v2 h

bar0_write-IsServed :
    (features : ℕ) (d : BlkDevice) (o : ℕ) (bytes : List ℕ)
    → IsServed features d
    → IsServed features (bar0_write d o bytes).0
unfolding bar0_write com_write write_table
bar0_write-IsServed features d o bytes h =
    if-holds Served (ltb o 0x100) (λ _. com_write_at-IsServed (field_of o) features d o _ _ _ h)
      λ _.
        if-holds Served (ltb o 0x300) (λ _. h)
          λ _.
            if-holds Served (ltb o 0x400) (λ _. h)
              λ _. if-holds Served (ltb o 0x500) (λ _. h) (λ _. h)
  where
    Served : BlkDevice × List Act → Type 0
    Served r = IsServed features r.0

bar0_read-IsServed :
    (features : ℕ) (d : BlkDevice) (o : ℕ) (buffer : List ℕ)
    → IsServed features d
    → IsServed features (bar0_read d o buffer).0
unfolding bar0_read read_isr
bar0_read-IsServed features d o [] h = ground arith
bar0_read-IsServed features d o (b ∷ buffer) h = ground arith

-- What the guest does to the device, by a write or a read of BAR 0 or a write to its configuration
-- space.
pub data Access : Type 0 where
  writes : ℕ → List ℕ → Access
  reads : ℕ → List ℕ → Access
  configures : ℕ → List ℕ → Access

pub access : BlkDevice → Access → BlkDevice
access d (writes o bytes) = (bar0_write d o bytes).0
access d (reads o buffer) = (bar0_read d o buffer).0
access d (configures o bytes) = write_config d o bytes

pub access_all : BlkDevice → List Access → BlkDevice
access_all d [] = d
access_all d (a ∷ rest) = access_all (access d a) rest

access-IsServed :
    (features : ℕ) (d : BlkDevice) (a : Access)
    → IsServed features d
    → IsServed features (access d a)
unfolding access write_config
access-IsServed features d (writes o bytes) h = bar0_write-IsServed features d o bytes h
access-IsServed features d (reads o buffer) h = bar0_read-IsServed features d o buffer h
access-IsServed features d (configures o bytes) h = h

-- Whatever a guest reads and writes, the device offers what it did, and every queue still has at
-- most 256 entries and follows indirect descriptors or uses event indexes only if that is offered.
pub access_all-IsServed :
    (features : ℕ) (d : BlkDevice) (accesses : List Access)
    → IsServed features d
    → IsServed features (access_all d accesses)
unfolding access_all
access_all-IsServed features d [] h = h
access_all-IsServed features d (a ∷ rest) h =
    access_all-IsServed features (access d a) rest (access-IsServed features d a h)
