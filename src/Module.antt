-- ===== src/Module.antt =====
-- libredis/module.c: the functions for memory that the program gives, and the error text of the library.
use libredis.Base.{ℕ, Option, none, some, Bytes, take}

-- A function for memory: the one of the C library, or one of the program's
pub data MemoryFunction : Type 0 where
  of_library : MemoryFunction
  of_program : ℕ → MemoryFunction

-- `struct _Module` without `allocated`, which stands with the free lists, and `error`; `none` is NULL.
pub record Module : Type 0 where
  pub alloc_malloc : Option MemoryFunction
  pub alloc_realloc : Option MemoryFunction
  pub alloc_free : Option MemoryFunction
  pub error : Bytes

abbrev pub or_library : Option MemoryFunction → Option MemoryFunction
or_library none = some of_library
or_library (some f) = some f

unfoldable pub Module_init : Module → Module
Module_init m = record m {
  alloc_malloc = or_library m.alloc_malloc;
  alloc_realloc = or_library m.alloc_realloc;
  alloc_free = or_library m.alloc_free;
}

unfoldable pub Module_set_alloc_alloc : Module → Option MemoryFunction → Module
Module_set_alloc_alloc m f = record m { alloc_malloc = f }

unfoldable pub Module_set_alloc_realloc : Module → Option MemoryFunction → Module
Module_set_alloc_realloc m f = record m { alloc_realloc = f }

unfoldable pub Module_set_alloc_free : Module → Option MemoryFunction → Module
Module_set_alloc_free m f = record m { alloc_free = f }

-- MAX_ERROR_SIZE without the NUL
abbrev pub max_text : ℕ
max_text = 254

-- The text is what the format and its arguments come to; `vsnprintf` cuts it to the array.
unfoldable pub Module_set_error : Module → Bytes → Module
Module_set_error m text = record m { error = take max_text text }

abbrev pub Module_last_error : Module → Bytes
Module_last_error m = m.error
