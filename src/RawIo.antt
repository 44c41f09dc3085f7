-- ===== src/RawIo.antt =====
-- lib/rawio.c: one file is opened and locked, read, written and closed. The system calls are not
-- part of the program: their outcomes are a parameter. A read or a write that succeeds is a whole one.
use sklaffkom.Base.{
  ℕ, zero, suc, ◌+◌, Bool, true, false, ◌&&◌, ◌||◌, ◌≡◌, refl, Option, none, some, ◌++◌, arith,
  Bytes, length, drop, ltb, if◌then◌else◌, ℤ, pos, failure, ap, ◌∙◌,
}

-- the outcomes of open, of each call of flock in turn, of read, close, lseek, write and ftruncate
pub record Calls : Type 0 where
  pub opens : Bool
  pub locks : ℕ → Bool
  pub reads : Bool
  pub closes : Bool
  pub seeks : Bool
  pub writes : Bool
  pub truncates : Bool

-- `while (flock(…) == -1 && count < 30) count++;` from a count with `left` seconds to go; the call of
-- flock before the loop is number 0
unfoldable pub lock_loop : ℕ → ℕ → (ℕ → Bool) → ℕ
lock_loop zero count locks = count
lock_loop (suc left) count locks =
    let further = lock_loop left (count + 1) locks in if locks (count + 1) then count else further

-- whether open_file returns a descriptor
unfoldable pub open_file : Calls → Bool
unfolding lock_loop
open_file calls =
    calls.opens && (if calls.locks 0 then true else ltb (lock_loop 30 0 calls.locks) 30)

-- read_file: the buffer, or NULL
unfoldable pub read_file : Calls → Bytes → Option Bytes
read_file calls file = if calls.reads then some file else none

-- whether close_file returns something other than -1
abbrev pub close_file : Calls → Bool
close_file calls = calls.closes

-- write_file: the return value and the bytes of the file after it. If ftruncate fails, what the file
-- had beyond the new bytes is still there.
unfoldable pub write_file : Calls → Bytes → Bytes → ℤ × Bytes
write_file calls buf file =
    if calls.seeks
    then (if calls.writes
        then (if calls.truncates then (pos 0, buf) else (pos 1, buf ++ drop (length buf) file))
        else (failure, file))
    else (failure, file)

-- Every system call succeeds, the lock at the first call.
pub record Works (calls : Calls) : Type 0 where
  pub opens : calls.opens ≡ true
  pub locks : calls.locks 0 ≡ true
  pub reads : calls.reads ≡ true
  pub closes : calls.closes ≡ true
  pub seeks : calls.seeks ≡ true
  pub writes : calls.writes ≡ true
  pub truncates : calls.truncates ≡ true

abbrev pub working : Calls
working = record {
  opens = true;
  locks = λ n. true;
  reads = true;
  closes = true;
  seeks = true;
  writes = true;
  truncates = true;
}

pub working-Works : Works working
working-Works = record {
  opens = refl;
  locks = refl;
  reads = refl;
  closes = refl;
  seeks = refl;
  writes = refl;
  truncates = refl;
}

module _ {calls : Calls} (works : Works calls) where
  pub open_file-Works : open_file calls ≡ true
  unfolding open_file
  open_file-Works = ground (arith, works.opens, works.locks)

  pub read_file-Works : (file : Bytes) → read_file calls file ≡ some file
  unfolding read_file
  read_file-Works file = ground (arith, works.reads)

  pub write_file-Works : (buf file : Bytes) → write_file calls buf file ≡ (pos 0, buf)
  unfolding write_file
  write_file-Works buf file = ground (arith, works.seeks, works.writes, works.truncates)

-- does one of the calls `count + 1`, …, `count + left` of flock succeed
abbrev pub locked_within : ℕ → ℕ → (ℕ → Bool) → Bool
locked_within zero count locks = false
locked_within (suc left) count locks = locks (count + 1) || locked_within left (count + 1) locks

lock_loop-locked_within :
    (left count : ℕ) (locks : ℕ → Bool)
    → ltb (lock_loop left count locks) (count + left) ≡ locked_within left count locks
unfolding lock_loop
lock_loop-locked_within zero count locks = ground arith
lock_loop-locked_within (suc left) count locks =
    let shift : count + suc left ≡ count + 1 + left = omega arith in
    rw shift (ground (arith, lock_loop-locked_within left (count + 1) locks))

if_or : (a b : Bool) → (if a then true else b) ≡ (a || b)
if_or true b = refl
if_or false b = refl

-- open_file returns a descriptor exactly when open succeeds and one of the first 31 calls of flock
-- does: the first one, or one of the 30 that follow a second's wait each or the first failure.
pub open_file-locked_within :
    (calls : Calls)
    → open_file calls ≡ (calls.opens && (calls.locks 0 || locked_within 30 0 calls.locks))
unfolding open_file
open_file-locked_within calls =
    ap (λ b. calls.opens && (if calls.locks 0 then true else b))
      (lock_loop-locked_within 30 0 calls.locks)
    ∙ ap (λ b. calls.opens && b) (if_or (calls.locks 0) _)
