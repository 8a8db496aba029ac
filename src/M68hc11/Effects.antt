-- ===== src/M68hc11/Effects.antt =====
-- Rules for actions of the core, one for each way to build an action: what they do to the widths
-- of the registers, to the cycle counter, and to a property of the memory behind the bus.
use ensoniq_eps_16_plus.Base.{ℕ, ◌+◌, ◌^◌, ◌<◌, ◌≡◌, refl, arith, u64, Bool, true, false}
use ensoniq_eps_16_plus.Base.{if◌then◌else◌, ◌∙◌, ap}
use ensoniq_eps_16_plus.M68hc11.Core.{
  Bus, Core, S, ◌>>=◌, ◌>>◌, gets, when, put_a, put_b, put_ccr, put_x, put_y, put_sp, put_pc,
  finish, read8, write8, stop_illegal, put_last_opcode,
}

-- Every register is within its width.
pub record IsWord {M : Type 0} (c : Core M) : Type 0 where
  pub a_byte : c.a < 2 ^ 8
  pub b_byte : c.b < 2 ^ 8
  pub ccr_byte : c.ccr < 2 ^ 8
  pub x_word : c.x < 2 ^ 16
  pub y_word : c.y < 2 ^ 16
  pub sp_word : c.sp < 2 ^ 16
  pub pc_word : c.pc < 2 ^ 16
  pub opcode_byte : c.last_opcode < 2 ^ 8
  pub cycles_word : c.cycles < 2 ^ 64

-- Reads and writes keep a property of the memory.
pub record BusKeeps {M : Type 0} (bus : Bus M) (P : M → Type 0) : Type 0 where
  pub on_read : (m : M) (address : ℕ) → P m → P (bus.read8 m address).1
  pub on_write : (m : M) (address value : ℕ) → P m → P (bus.write8 m address value)

-- `m` leaves the cycle counter alone.
pub record Silent {M : Type 0} {A : Type 0} (P : M → Type 0) (m : S M A) : Type 0 where
  pub at :
      (c : Core M)
      → IsWord c
      → P c.mem
      → IsWord (m c).1 × P (m c).1.mem × ((m c).1.cycles ≡ c.cycles)

-- `m` adds to the cycle counter what it returns.
pub record Timed {M : Type 0} (P : M → Type 0) (m : S M ℕ) : Type 0 where
  pub at :
      (c : Core M)
      → IsWord c
      → P c.mem
      → IsWord (m c).1 × P (m c).1.mem × ((m c).1.cycles ≡ u64 (c.cycles + (m c).0))

module _ {M : Type 0} {P : M → Type 0} where
  pub Silent-gets : {A : Type 0} (f : Core M → A) → Silent P (gets f)
  unfolding gets
  Silent-gets f = record { at = λ c w p. (w, p, refl) }

  pub Silent-put_a : (v : ℕ) → Silent P (put_a v)
  unfolding put_a
  Silent-put_a v = record { at = λ c w p. (omega arith, p, refl) }

  pub Silent-put_b : (v : ℕ) → Silent P (put_b v)
  unfolding put_b
  Silent-put_b v = record { at = λ c w p. (omega arith, p, refl) }

  pub Silent-put_ccr : (v : ℕ) → Silent P (put_ccr v)
  unfolding put_ccr
  Silent-put_ccr v = record { at = λ c w p. (omega arith, p, refl) }

  pub Silent-put_x : (v : ℕ) → Silent P (put_x v)
  unfolding put_x
  Silent-put_x v = record { at = λ c w p. (omega arith, p, refl) }

  pub Silent-put_y : (v : ℕ) → Silent P (put_y v)
  unfolding put_y
  Silent-put_y v = record { at = λ c w p. (omega arith, p, refl) }

  pub Silent-put_sp : (v : ℕ) → Silent P (put_sp v)
  unfolding put_sp
  Silent-put_sp v = record { at = λ c w p. (omega arith, p, refl) }

  pub Silent-put_pc : (v : ℕ) → Silent P (put_pc v)
  unfolding put_pc
  Silent-put_pc v = record { at = λ c w p. (omega arith, p, refl) }

  pub Silent-put_last_opcode : (v : ℕ) → Silent P (put_last_opcode v)
  unfolding put_last_opcode
  Silent-put_last_opcode v = record { at = λ c w p. (omega arith, p, refl) }

  pub Silent-when : (b : Bool) (m : S M (Unit {0})) → Silent P m → Silent P (when b m)
  unfolding when
  Silent-when true m h = record { at = λ c w p. h.at c w p }
  Silent-when false m h = record { at = λ c w p. (w, p, refl) }

  pub Silent-bind :
      {A B : Type 0} (m : S M A) (f : A → S M B)
      → Silent P m
      → ((a : A) → Silent P (f a))
      → Silent P (m >>= f)
  unfolding ◌>>=◌
  Silent-bind m f hm hf = record {
    at = λ c w p.
        let h = hm.at c w p in let k = (hf (m c).0).at (m c).1 h.0 h.1 in (k.0, k.1, k.2 ∙ h.2);
  }

  pub Silent-then :
      {A B : Type 0} (m : S M A) (n : S M B) → Silent P m → Silent P n → Silent P (m >> n)
  unfolding ◌>>◌
  Silent-then m n hm hn = record {
    at = λ c w p. let h = hm.at c w p in let k = hn.at (m c).1 h.0 h.1 in (k.0, k.1, k.2 ∙ h.2);
  }

  pub Timed-finish : (n : ℕ) → Timed P (finish n)
  unfolding finish
  Timed-finish n = record { at = λ c w p. (omega arith, p, refl) }

  pub Timed-stop_illegal : Timed P stop_illegal
  unfolding stop_illegal
  Timed-stop_illegal = record { at = λ c w p. (omega arith, p, omega arith) }

  pub Timed-bind :
      {A : Type 0} (m : S M A) (f : A → S M ℕ)
      → Silent P m
      → ((a : A) → Timed P (f a))
      → Timed P (m >>= f)
  unfolding ◌>>=◌
  Timed-bind m f hm hf = record {
    at = λ c w p.
        let h = hm.at c w p in
        let k = (hf (m c).0).at (m c).1 h.0 h.1 in
        (k.0, k.1, k.2 ∙ ap (λ n. u64 (n + (f (m c).0 (m c).1).0)) h.2);
  }

  pub Timed-then : {A : Type 0} (m : S M A) (n : S M ℕ) → Silent P m → Timed P n → Timed P (m >> n)
  unfolding ◌>>◌
  Timed-then m n hm hn = record {
    at = λ c w p.
        let h = hm.at c w p in
        let k = hn.at (m c).1 h.0 h.1 in (k.0, k.1, k.2 ∙ ap (λ t. u64 (t + (n (m c).1).0)) h.2);
  }

  pub Timed-if : (b : Bool) (m n : S M ℕ) → Timed P m → Timed P n → Timed P (if b then m else n)
  Timed-if true m n hm hn = hm
  Timed-if false m n hm hn = hn

  -- `if (test) return 0;` and then the action.
  pub Timed-unless :
      (test : Core M → Bool) (m : S M ℕ) → Timed P m → Timed P (λ c. if test c then (0, c) else m c)
  Timed-unless test m h = record { at = λ c w p. go c (test c) w p }
    where
      go :
          (c : Core M) (b : Bool)
          → IsWord c
          → P c.mem
          → let r : ℕ × Core M = if b then (0, c) else m c in
            IsWord r.1 × P r.1.mem × (r.1.cycles ≡ u64 (c.cycles + r.0))
      go c true w p = (w, p, omega arith)
      go c false w p = h.at c w p

module _ {M : Type 0} ⦃bus : Bus M⦄ {P : M → Type 0} where
  pub Silent-read8 : (address : ℕ) → BusKeeps bus P → Silent P (read8 address)
  unfolding read8
  Silent-read8 address k = record { at = λ c w p. (omega arith, k.on_read c.mem address p, refl) }

  pub Silent-write8 : (address value : ℕ) → BusKeeps bus P → Silent P (write8 address value)
  unfolding write8
  Silent-write8 address value k = record {
    at = λ c w p. (omega arith, k.on_write c.mem address value p, refl);
  }

-- The rules for the primitive actions.
pub ruleset effects = (
  Silent-gets, Silent-put_a, Silent-put_b, Silent-put_ccr, Silent-put_x, Silent-put_y,
  Silent-put_sp, Silent-put_pc, Silent-put_last_opcode, Silent-when, Silent-bind, Silent-then,
  Timed-finish, Timed-stop_illegal, Timed-bind, Timed-then, Silent-read8, Silent-write8,
)
