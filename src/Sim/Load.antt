-- ===== src/Sim/Load.antt =====
-- `loadElf` and `loadBin` of verilator_utils/verilator_utils.cpp. The loader of ELF files, the files
-- and `fread` are outside the program: what they bring is an argument.
use tinylabs_cores.Common.{
  ℕ, zero, suc, ◌+◌, ◌-◌, ◌*◌, ◌/◌, ◌<◌, ◌≡◌, refl, ap, ◌∙◌, Bool, true, false, not, Option, none,
  some, ltb, ◌==◌, if◌then◌else◌, arith, ◌&&◌, leb, Bool-cases, inl, inr,
}

-- `mem`, by words. (It is taken to be there and as long as what is loaded.)
abbrev pub Memory : Type 0
Memory = ℕ → ℕ

abbrev pub set_word : ℕ → ℕ → Memory → Memory
set_word k x mem j = if j == k then x else mem j

-- What `load_elf_file` gives: the size of an image, and `read_32` of it.
pub record Image : Type 0 where
  pub size : ℕ
  pub read_32 : ℕ → ℕ

-- `for (i = 0; i < size; i += 4) mem[i/4] = read_32 (bin_data, i);`, on fuel.
unfoldable pub load_words : ℕ → Image → ℕ → Memory → Option Memory
load_words zero image i mem = none
load_words (suc fuel) image i mem = elim (ltb i image.size) [
  | true ↦ load_words fuel image (i + 4) (set_word (i / 4) (image.read_32 i) mem)
  | false ↦ some mem
]

-- `loadElf`: the memory and the result. One unit of fuel per byte and one more are enough.
unfoldable pub load_elf : Option Image → Memory → Option (Memory × Bool)
load_elf none mem = some (mem, false)
load_elf (some image) mem = elim (load_words (suc image.size) image 0 mem) [
  | none ↦ none
  | some mem' ↦ some (mem', true)
]

-- A file that is open: its size, and what `fread` of that size returns and does to the memory.
pub record BinFile : Type 0 where
  pub size : ℕ
  pub fread : Memory → ℕ × Memory

-- `loadBin`: the memory, the result, and whether a file is left open.
unfoldable pub load_bin : Option BinFile → Memory → Memory × Bool × Bool
load_bin none mem = (mem, false, false)
load_bin (some file) mem =
    let (count, mem') = file.fread mem in
    if not (count == file.size) then (mem', false, true) else (mem', true, false)

-- Word `j` of what the loop leaves, from word `k` on.
abbrev pub loaded : Image → ℕ → Memory → ℕ → ℕ
loaded image k mem j = if leb k j && ltb (j * 4) image.size then image.read_32 (j * 4) else mem j

load_words_step :
    (fuel : ℕ) (image : Image) (k : ℕ) (mem : Memory)
    → ltb (k * 4) image.size ≡ true
    → load_words (suc fuel) image (k * 4) mem
      ≡ load_words fuel image ((k + 1) * 4) (set_word k (image.read_32 (k * 4)) mem)
unfolding load_words
load_words_step fuel image k mem more =
    let next : k * 4 + 4 ≡ (k + 1) * 4 = omega arith in
    let word : k * 4 / 4 ≡ k = omega arith in
    rw (load_words, more)
      (ap (λ i. load_words fuel image i (set_word (k * 4 / 4) (image.read_32 (k * 4)) mem)) next
        ∙ ap (λ w. load_words fuel image ((k + 1) * 4) (set_word w (image.read_32 (k * 4)) mem))
            word)

loaded_step :
    (image : Image) (k : ℕ) (mem : Memory) (j : ℕ)
    → ltb (k * 4) image.size ≡ true
    → loaded image (k + 1) (set_word k (image.read_32 (k * 4)) mem) j ≡ loaded image k mem j
loaded_step image k mem j more = grind (arith, more)

load_words_lem :
    (fuel : ℕ) (image : Image) (k : ℕ) (mem : Memory)
    → image.size - k * 4 < fuel
    → (mem' : Memory) × (load_words fuel image (k * 4) mem ≡ some mem')
      × ((j : ℕ) → mem' j ≡ loaded image k mem j)
unfolding load_words
load_words_lem zero image k mem enough = absurd (omega arith)
load_words_lem (suc fuel) image k mem enough = elim (Bool-cases (ltb (k * 4) image.size)) [
  | inl more ↦
      let left : k * 4 < image.size = ground (arith, more) in
      let (mem', e, each) =
        load_words_lem fuel image (k + 1) (set_word k (image.read_32 (k * 4)) mem)
          (omega (arith, left, enough)) in
      (
        mem',
        load_words_step fuel image k mem more ∙ e,
        λ j. each j ∙ loaded_step image k mem j more,
      )
  | inr over ↦ (mem, rw (load_words, over) refl, λ j. past j over)
]
  where
    past : (j : ℕ) → ltb (k * 4) image.size ≡ false → mem j ≡ loaded image k mem j
    past j over = ground (arith, over)

-- With the image of an ELF file, `loadElf` ends with true and a memory whose word `j` is the word of
-- the image at `4 * j` as long as that is inside the image, and the old word behind it; without one
-- it returns false and leaves the memory.
pub load_elf_lem :
    (image : Image) (mem : Memory)
    → (mem' : Memory) × (load_elf (some image) mem ≡ some (mem', true))
      × ((j : ℕ) → mem' j ≡ (if ltb (j * 4) image.size then image.read_32 (j * 4) else mem j))
      × (load_elf none mem ≡ some (mem, false))
unfolding load_elf
load_elf_lem image mem =
    let (mem', e, each) = load_words_lem (suc image.size) image 0 mem (omega arith) in
    (mem', rw (load_elf, e) refl, λ j. each j ∙ ground arith, refl)
