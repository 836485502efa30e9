-- ===== src/Interrupts/Pic.antt =====
-- Moving the controllers' interrupts to other vectors, `remap_pic` of kernel/interrupts/interrupts.cc, and an independent
-- description of the two 8259 chips that it programs.
use eterna.Base.{ℕ, ◌+◌, ◌≡◌, refl, bit_and, Bool, true, false, not, [], ◌∷◌, ◌==◌, if◌then◌else◌}
use eterna.Interrupts.{Writes, pic1_command, pic1_data, pic2_command, pic2_data}

abbrev pub pic_irq_vector_offset : ℕ
pic_irq_vector_offset = 0x20

-- The write of `io_wait`, kernel/io/io.cc, to a port that nothing uses.
abbrev pub io_wait : ℕ × ℕ
io_wait = (0x80, 0)

unfoldable pub remap_pic : (ℕ → ℕ) → Writes
remap_pic in8 =
    let parent_masks = in8 pic1_data in
    let child_masks = in8 pic2_data in
    io_wait
    ∷ io_wait
    ∷ (pic1_command, 0x11)
    ∷ io_wait
    ∷ (pic2_command, 0x11)
    ∷ io_wait
    ∷ (pic1_data, pic_irq_vector_offset)
    ∷ io_wait
    ∷ (pic2_data, pic_irq_vector_offset + 8)
    ∷ io_wait
    ∷ (pic1_data, 4)
    ∷ io_wait
    ∷ (pic2_data, 2)
    ∷ io_wait
    ∷ (pic1_data, 1)
    ∷ io_wait
    ∷ (pic2_data, 1)
    ∷ io_wait
    ∷ (pic1_data, parent_masks)
    ∷ io_wait
    ∷ (pic2_data, child_masks)
    ∷ io_wait
    ∷ []

-- What a write to a chip's data port means: its masks, or the second, third or fourth word of an initialisation.
pub data Expects : Type 0 where
  masks vector_word cascade_word mode_word : Expects

pub record Controller : Type 0 where
  pub expects : Expects
  pub single : Bool
  pub has_mode : Bool
  pub vector : ℕ
  pub cascade : ℕ
  pub mode : ℕ
  pub mask : ℕ

-- A command with bit 4 starts an initialisation and clears the masks: bit 1 says that there is no cascade word, bit 0 that
-- there is a word for the mode.
unfoldable pub command : Controller → ℕ → Controller
command c value = if bit_and value 16 == 0 then c else record c {
  expects = vector_word;
  single = not (bit_and value 2 == 0);
  has_mode = not (bit_and value 1 == 0);
  mask = 0;
}

abbrev after_cascade : Controller → Expects
after_cascade c = if c.has_mode then mode_word else masks

unfoldable pub data_word : Expects → Controller → ℕ → Controller
data_word masks c value = record c { mask = value }
data_word vector_word c value = record c {
  expects = if c.single then after_cascade c else cascade_word;
  vector = value;
}
data_word cascade_word c value = record c { expects = after_cascade c; cascade = value }
data_word mode_word c value = record c { expects = masks; mode = value }

unfoldable pub to_chips : ℕ × ℕ → Controller × Controller → Controller × Controller
to_chips (port, value) (first, second) =
    if port == pic1_command
    then (command first value, second)
    else if port == pic1_data
    then (data_word first.expects first value, second)
    else if port == pic2_command
    then (first, command second value)
    else if port == pic2_data
    then (first, data_word second.expects second value)
    else (first, second)

unfoldable pub chips_after : Writes → Controller × Controller → Controller × Controller
chips_after [] chips = chips
chips_after (w ∷ ws) chips = chips_after ws (to_chips w chips)

-- A chip that is ready, in a cascade.
abbrev pub ready_chip : ℕ → ℕ → ℕ → Controller
ready_chip vector cascade mask = record {
  expects = masks;
  single = false;
  has_mode = true;
  vector = vector;
  cascade = cascade;
  mode = 1;
  mask = mask;
}

-- Whatever state the two chips are in, and if their data ports read as their masks, `remap_pic` leaves both ready with the
-- masks they had: the first gives its interrupts from 0x20 on and knows of a second one on its line 2, which gives its own
-- from 0x28 on.
pub remap_pic-ready_chip :
    (in8 : ℕ → ℕ) (first second : Controller)
    → in8 pic1_data ≡ first.mask
    → in8 pic2_data ≡ second.mask
    → chips_after (remap_pic in8) (first, second)
      ≡ (ready_chip 0x20 4 first.mask, ready_chip 0x28 2 second.mask)
unfolding remap_pic chips_after to_chips command data_word
remap_pic-ready_chip in8 first second e₁ e₂ = rw (e₁, e₂) refl
