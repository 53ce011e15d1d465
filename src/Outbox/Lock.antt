-- ===== src/Outbox/Lock.antt =====
-- The profile lock of better_hermes_hindsight/outbox.py: the checks of the lock file's identity,
-- the owner object, and the one nonblocking attempt to acquire it.
use better_hermes_hindsight.Common.{
  ℕ, ◌≡◌, Bool, true, false, ◌&&◌, ◌||◌, not, Option, none, some, ◌==◌, if◌then◌else◌, is_some,
  arith,
}
use better_hermes_hindsight.Outbox.Types.{Settings, SqliteOutbox, ProfileLockStatus}

-- The fields of `os.stat_result` that the code reads.
pub record Stat : Type 0 where
  pub is_regular : Bool
  pub device : ℕ
  pub inode : ℕ
  pub user : ℕ
  pub mode : ℕ

-- What the file system answers at one moment: whether the lock path resolves to a place inside the
-- home, and the status of the path and of the descriptor (`none` where the call raises).
pub record LockView : Type 0 where
  pub posix : Bool
  pub effective_user : ℕ
  pub inside_home : Bool
  pub path_status : Option Stat
  pub descriptor_status : Option Stat

-- False where the source raises `OSError`. 384 is 0o600.
unfoldable pub validate_profile_lock_status : Settings → LockView → Bool → Option Stat → Bool
validate_profile_lock_status settings view require_private_mode none = false
validate_profile_lock_status settings view require_private_mode (some status) =
    status.is_regular
    && status.device == settings.lock_device
    && status.inode == settings.lock_inode
    && (not view.posix
        || status.user == view.effective_user && (not require_private_mode || status.mode == 384))

unfoldable pub revalidate_profile_lock_identity : Settings → LockView → Bool → Bool → Bool
unfolding validate_profile_lock_status
revalidate_profile_lock_identity settings view with_descriptor require_private_mode =
    view.inside_home
    && validate_profile_lock_status settings view require_private_mode view.path_status
    && (not with_descriptor
        || validate_profile_lock_status settings view require_private_mode view.descriptor_status)

-- A descriptor below zero, after `release`, is `none`.
pub record ProfileLockOwner : Type 0 where
  pub descriptor : Option ℕ
  pub token : ℕ

-- `ProfileLockOwner.release`, with the descriptor that it unlocks and closes.
unfoldable pub release : ProfileLockOwner → ProfileLockOwner × Option ℕ
release owner = (record owner { descriptor = none }, owner.descriptor)

unfoldable pub descriptor_for : ProfileLockOwner → ℕ → Option ℕ
descriptor_for owner token = if owner.token == token then owner.descriptor else none

unfoldable pub owner_descriptor : Settings → LockView → ProfileLockOwner → Option ℕ
unfolding descriptor_for
owner_descriptor settings view owner = elim (descriptor_for owner settings.lock_token) [
  | none ↦ none
  | some descriptor ↦
      if revalidate_profile_lock_identity settings view true true then some descriptor else none
]

-- `fcntl.flock(LOCK_EX | LOCK_NB)`: granted, refused with EACCES or EAGAIN, or another error.
pub data Flock : Type 0 where
  granted held raised : Flock

-- The answers that one attempt meets.
pub record AcquireView : Type 0 where
  pub opened : Option ℕ
  pub before : LockView
  pub flock : Flock
  pub after : LockView

-- The result, the descriptor that stays open, and whether the lock stays on it.
pub record Acquisition : Type 0 where
  pub status : ProfileLockStatus
  pub owner : Option ProfileLockOwner
  pub left_open : Option ℕ
  pub left_locked : Bool

-- What the `try` block returns, with its variables `descriptor` and `acquired`.
pub record Attempt : Type 0 where
  pub status : ProfileLockStatus
  pub owner : Option ProfileLockOwner
  pub descriptor : Option ℕ
  pub acquired : Bool

abbrev failed : Acquisition
failed = record {
  status = ProfileLockStatus.local_failure;
  owner = none;
  left_open = none;
  left_locked = false;
}

abbrev no_owner : ProfileLockStatus → ℕ → Bool → Attempt
no_owner status descriptor acquired = record {
  status = status;
  owner = none;
  descriptor = some descriptor;
  acquired = acquired;
}

-- The `try` block from `_try_flock_exclusive` on.
unfoldable pub after_flock : SqliteOutbox → AcquireView → ℕ → Flock → Attempt
after_flock box view descriptor Flock.raised =
    no_owner ProfileLockStatus.local_failure descriptor false
after_flock box view descriptor Flock.held = no_owner ProfileLockStatus.contended descriptor false
after_flock box view descriptor Flock.granted =
    if revalidate_profile_lock_identity box.settings view.after true true
    then record {
      status = ProfileLockStatus.acquired;
      owner = some (record { descriptor = some descriptor; token = box.settings.lock_token });
      descriptor = none;
      acquired = true;
    }
    else no_owner ProfileLockStatus.local_failure descriptor true

-- The `finally` block, once `opened` is open: a descriptor that still stands in the variable is closed, and
-- is unlocked first if the lock was acquired.
unfoldable pub clean_up : Attempt → ℕ → Acquisition
clean_up attempt opened =
    let kept : Acquisition = record {
      status = attempt.status;
      owner = attempt.owner;
      left_open = some opened;
      left_locked = attempt.acquired;
    } in
    elim attempt.descriptor [
      | none ↦ kept
      | some _ ↦
          if attempt.acquired
          then record kept { left_locked = false; left_open = none }
          else record kept { left_open = none }
    ]

unfoldable pub try_acquire_profile_lock : SqliteOutbox → AcquireView → Acquisition
unfolding after_flock clean_up
try_acquire_profile_lock box view =
    if not view.before.posix || box.closed then failed else elim view.opened [
      | none ↦ failed
      | some descriptor ↦
          clean_up
            (if revalidate_profile_lock_identity box.settings view.before true true
              then after_flock box view descriptor view.flock
              else no_owner ProfileLockStatus.local_failure descriptor false)
            descriptor
    ]

-- The owner that an attempt returns passes the ownership check of the same outbox at a time when the lock
-- file has its identity, and fails that check once it is released.
pub acquire-owner :
    (box : SqliteOutbox) (view : AcquireView) (later : LockView) {owner : ProfileLockOwner}
    → (try_acquire_profile_lock box view).owner ≡ some owner
    → revalidate_profile_lock_identity box.settings later true true ≡ true
    → (is_some (owner_descriptor box.settings later owner) ≡ true)
      × (owner_descriptor box.settings later (release owner).0 ≡ none)
unfolding try_acquire_profile_lock owner_descriptor release
acquire-owner box view later h k = ground arith

abbrev pub is_acquired : ProfileLockStatus → Bool
is_acquired ProfileLockStatus.acquired = true
is_acquired _ = false

abbrev pub owned : Option ProfileLockOwner → Option ℕ
owned none = none
owned (some owner) = owner.descriptor

-- An attempt returns an owner exactly when it reports `acquired`; its owner then holds the descriptor
-- that stays open, with the lock on it. On every other path, once the `finally` block has run, no
-- descriptor that the attempt has opened stays open, and no lock stays on it.
pub acquire_no_leak :
    (box : SqliteOutbox) (view : AcquireView)
    → let r = try_acquire_profile_lock box view in
      (is_some r.owner ≡ is_acquired r.status)
      × (is_some r.left_open ≡ is_acquired r.status)
      × (r.left_locked ≡ is_acquired r.status)
      × (r.left_open ≡ owned r.owner)
unfolding try_acquire_profile_lock
acquire_no_leak box view = ground arith
