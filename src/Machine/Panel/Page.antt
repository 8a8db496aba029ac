-- ===== src/Machine/Panel/Page.antt =====
-- native/rom_probe.c, lines 1629 to 2032: a page of 22 characters, from its first byte to the display
-- that is published.
use ensoniq_eps_16_plus.Base.{
  ℕ, zero, suc, ◌+◌, ◌-◌, ◌^◌, ◌≤◌, ◌<◌, ◌≡◌, refl, ◌∙◌, arith, ltb, if◌then◌else◌, false, none,
  List, [], ◌∷◌, update, bit_and,
}
use Prim.Native.Nat.{bit_and-bitwise}
use ensoniq_eps_16_plus.Machine.Panel.State.{Panel, panel_render_level_meter, publish_display}
use ensoniq_eps_16_plus.Machine.Panel.Cursor.{
  motion, cursor_command, resolve_address, place_cursor, resume_field,
}
use ensoniq_eps_16_plus.Machine.Panel.Level.{resolve_level, level_setup, hold_level}
use ensoniq_eps_16_plus.Machine.Panel.Write.{
  clear_display, put_cell, write_display, publish_complete, panel_write,
}

abbrev pub length {ℓ} : {A : Type ℓ} → List A → ℕ
length [] = 0
length (x ∷ xs) = suc (length xs)

-- Bytes with the cycles at which they are sent, and the byte at an index.
unfoldable pub panel_write_all : List (ℕ × ℕ) → Panel → Panel
panel_write_all [] p = p
panel_write_all ((now, value) ∷ rest) p = panel_write_all rest (panel_write now value p)

abbrev pub value_at : List (ℕ × ℕ) → ℕ → ℕ
value_at [] i = 0
value_at (b ∷ bs) zero = b.1
value_at (b ∷ bs) (suc i) = value_at bs i

-- Characters from 0x20 to 0x5f.
abbrev AllGlyphs : List (ℕ × ℕ) → Type 0
AllGlyphs [] = Unit
AllGlyphs (b ∷ bs) = (0x20 ≤ b.1) × (b.1 ≤ 0x5f) × AllGlyphs bs

-- No command is open, and `typed` characters of the page have come.
record IsTyping (typed : ℕ) (p : Panel) : Type 0 where
  cursor : p.cursor ≡ typed
  points : p.decimal_mask ≡ 0
  start : p.cursor_start ≡ none
  segments : p.segment_mask ≡ 0
  active : p.cursor_active ≡ false
  width : p.width_pending ≡ false
  noncell : p.noncell_parameter_pending ≡ false
  address : p.cell_address_pending ≡ false
  state : p.command_state ≡ 0
  mode : p.text_mode_pending ≡ false
  metering : p.level_active ≡ false
  setup : p.level_setup_state ≡ 0
  held : p.level_pending ≡ false
  lamp : p.indicator_command_pending ≡ 0
  before : 22 < p.last_tx

module _ (now value : ℕ) (typed : ℕ) (p : Panel) (low : 0x20 ≤ value) (high : value ≤ 0x5f)
    (t : IsTyping typed p) (room : typed < 22) where
  no_command : cursor_command value p ≡ motion false false p
  unfolding cursor_command
  no_command = ground (arith, t.state)

  no_address : resolve_address value p ≡ p
  unfolding resolve_address
  no_address = ground (arith, t.address)

  no_level : resolve_level now value p ≡ p
  unfolding resolve_level
  no_level = ground (arith, t.held)

  no_setup : level_setup value p ≡ (false, p)
  unfolding level_setup
  no_setup = ground (arith, t.setup)

  no_hold : hold_level value false p ≡ p
  unfolding hold_level
  no_hold = ground (arith, t.metering)

  one_cell : write_display now value false p ≡ put_cell now value false p
  unfolding write_display
  one_cell = ground (arith, t.active, t.mode, t.lamp, t.noncell, t.width, t.cursor, t.before)

  one_glyph :
      panel_write now value p
      ≡ record (publish_complete false (put_cell now value false p)) { last_tx = value }
  unfolding panel_write
  one_glyph = rw no_command (rw no_address (rw no_level (rw no_setup (rw no_hold (rw one_cell)))))

  -- A character before the last cell.
  next_glyph :
      typed < 21
      → IsTyping (suc typed) (panel_write now value p)
        × ((panel_write now value p).display ≡ update p.display typed value)
  unfolding publish_complete put_cell
  next_glyph more =
      let cleared : bit_and p.decimal_mask (2 ^ 32 - 1 - 2 ^ p.cursor) ≡ 0 =
        rw t.points (simp bit_and-bitwise refl) in
      rw one_glyph (ground (arith, t.cursor, t.active), ground (arith, t.cursor))

  -- The character in the last cell.
  last_glyph :
      typed ≡ 21
      → let q = panel_write now value p in
        (q.published.cells ≡ update p.display typed value)
        × (q.published.points ≡ 0)
        × (q.published.first ≡ none)
        × (q.published.segments ≡ 0)
        × (q.cursor ≡ 0)
        × (q.display_dirty ≡ false)
  unfolding publish_complete put_cell publish_display
  last_glyph end =
      let cleared : bit_and p.decimal_mask (2 ^ 32 - 1 - 2 ^ p.cursor) ≡ 0 =
        rw t.points (simp bit_and-bitwise refl) in
      rw one_glyph (
        ground (arith, t.cursor),
        ground (arith, t.cursor),
        ground (arith, t.cursor),
        ground (arith, t.cursor),
        ground (arith, t.cursor),
        ground (arith, t.cursor),
      )

-- The frame that shows the page, and the state that it leaves.
abbrev pub ShowsPage : (ℕ → ℕ) → Panel → Type 0
ShowsPage page q =
    ((cell : ℕ) → cell < 22 → q.published.cells cell ≡ page cell)
    × (q.published.points ≡ 0)
    × (q.published.first ≡ none)
    × (q.published.segments ≡ 0)
    × (q.cursor ≡ 0)
    × (q.display_dirty ≡ false)

-- What the rest of a page adds to the characters that have come.
abbrev extended : ℕ → (ℕ → ℕ) → List (ℕ × ℕ) → ℕ → ℕ
extended typed display bytes cell =
    if ltb cell typed then display cell else value_at bytes (cell - typed)

extended-next :
    (typed now value cell : ℕ) (display : ℕ → ℕ) (rest : List (ℕ × ℕ))
    → extended (suc typed) (update display typed value) rest cell
      ≡ extended typed display ((now, value) ∷ rest) cell
extended-next typed now value cell display rest = go (cell - typed) refl
  where
    go :
        (d : ℕ)
        → cell - typed ≡ d
        → extended (suc typed) (update display typed value) rest cell
          ≡ (if ltb cell typed then display cell else value_at ((now, value) ∷ rest) d)
    go zero e = ground (arith, e)
    go (suc d) e = let f : cell - suc typed ≡ d = omega (arith, e) in rw f (ground (arith, e))

rest_of_page :
    (bytes : List (ℕ × ℕ)) (typed : ℕ) (p : Panel)
    → typed < 22
    → typed + length bytes ≡ 22
    → AllGlyphs bytes
    → IsTyping typed p
    → ShowsPage (extended typed p.display bytes) (panel_write_all bytes p)
unfolding panel_write_all
rest_of_page [] typed p room full glyphs t = absurd (omega (arith, full))
rest_of_page ((now, value) ∷ []) typed p room full glyphs t =
    let last = last_glyph now value typed p glyphs.0 glyphs.1 t room (omega (arith, full)) in
    let within : (cell : ℕ)
        → cell < suc typed
        → update p.display typed value cell
          ≡ extended (suc typed) (update p.display typed value) [] cell =
      λ cell below. ground arith in
    (
      λ cell below.
          rw last.0
            (within cell (omega (arith, full)) ∙ extended-next typed now value cell p.display []),
      last.1,
      last.2,
      last.3,
      last.4,
      last.5,
    )
rest_of_page ((now, value) ∷ b ∷ rest) typed p room full glyphs t =
    let next = next_glyph now value typed p glyphs.0 glyphs.1 t room (omega (arith, full)) in
    let page =
      rest_of_page (b ∷ rest) (suc typed) (panel_write now value p) (omega (arith, full))
        (omega (arith, full)) glyphs.2 next.0 in
    (
      λ cell below.
          page.0 cell below ∙ rw next.1 (extended-next typed now value cell p.display (b ∷ rest)),
      page.1,
      page.2,
      page.3,
      page.4,
      page.5,
    )

-- The delimiter 'f' from any state that waits for no lamp.
module _ (now : ℕ) (p : Panel) (idle : p.indicator_command_pending ≡ 0) where
  command_f :
      ((cursor_command 0x66 p).is_complete ≡ false)
      × ((cursor_command 0x66 p).panel.indicator_command_pending ≡ 0)
  unfolding cursor_command place_cursor resume_field
  command_f = (ground arith, ground arith)

  address_f :
      (q : Panel) → (resolve_address 0x66 q).indicator_command_pending ≡ q.indicator_command_pending
  unfolding resolve_address
  address_f q = ground arith

  level_f :
      (q : Panel)
      → (resolve_level now 0x66 q).indicator_command_pending ≡ q.indicator_command_pending
  unfolding resolve_level panel_render_level_meter
  level_f q = ground arith

  panel_write-delimiter : IsTyping 0 (panel_write now 0x66 p)
  unfolding panel_write level_setup hold_level write_display publish_complete clear_display
  panel_write-delimiter =
      let moved = cursor_command 0x66 p in
      let addressed = resolve_address 0x66 moved.panel in
      let lamp = level_f addressed ∙ address_f moved.panel ∙ command_f.1 in
      ground (arith, command_f.0)

-- In any state that waits for no lamp: after the delimiter 'f' and 22 characters from 0x20 to
-- 0x5f, sent at any cycles, the display that is published shows the 22 characters in order,
-- without points, field or cursor segment; the cursor is at the first cell, and nothing waits to
-- be published.
pub panel_write_all-page :
    (now : ℕ) (bytes : List (ℕ × ℕ)) (p : Panel)
    → p.indicator_command_pending ≡ 0
    → length bytes ≡ 22
    → AllGlyphs bytes
    → ShowsPage (value_at bytes) (panel_write_all ((now, 0x66) ∷ bytes) p)
unfolding panel_write_all
panel_write_all-page now bytes p idle full glyphs =
    let page =
      rest_of_page bytes 0 (panel_write now 0x66 p) (omega arith) (omega (arith, full)) glyphs
        (panel_write-delimiter now p idle) in
    (λ cell below. page.0 cell below ∙ ground arith, page.1, page.2, page.3, page.4, page.5)
