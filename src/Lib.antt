-- ===== src/Lib.antt =====
-- Verification library for yalibct, a set of tests for C libraries. The repository has test programs under
-- tests/, the test frameworks that they are written for under include/test-deps/, and under
-- include/test-lib/portable-symbols/ fallbacks for functions that a C library may lack. A test program
-- calls a function of the C library, or its fallback, through a framework, and exits with 0 if the
-- answers are right.
--
-- Base      Names, Boolean tests and lists with native indices that all parts share.
-- Ring      include/test-lib/portable-symbols/internal/gnulib/I_ring.h, i_ring_*.h: the ring of four file
--           descriptors of fts. A call of abort is `none`. Ring.Stack is the bounded stack that it stands for.
-- Getopt    internal/gnulib/getopt-common.h there, _getopt_internal_r with exchange and process_long_option, and getopt.h and
--           getopt_long.h on the global variables.
--           The state is the record GetoptData, which also holds argv, what is written through pointers,
--           and the messages. An access outside argv is `fault`, or `none` in exchange and the parts that call it,
--           from which the scanner comes to `fault`. The loop of exchange runs on fuel, the
--           length of both segments, and each round shortens one of them by at least one element.
-- StringBuffer
--           internal/gnulib/sb_*.h and string-buffer-common.h there: the growing buffer. malloc, realloc and
--           vsnprintf are arguments; what they are documented to do is a hypothesis. size_t has 64 bits.
-- Strings   include/test-lib/portable-symbols/strcasecmp.h. TOLOWER is an argument, and a read outside an object is `none`.
-- Wide      wcscmp.h and wcsncmp.h in include/test-lib/portable-symbols. A wide character is an integer with a sign,
--           and a read outside an object is `none`.
-- Bytes     memchr.h, strnlen.h and memchr_inv.h in include/test-lib/portable-symbols/. A read outside the object is a
--           `fault`. The number of 64-bit words is an unsigned int of 32 bits, so that lengths are kept
--           below 2 ^ 35.
-- Hash      internal/gnulib/hash-common.h, hash_*.h, Hash_table.h and Hash_tuning.h there: the hash table. A bucket
--           is the list of its entries. float, the hasher, the comparator, calloc and the obstack are fields
--           of an environment that is an argument. A call of abort is `ended`, and an entry that is handed
--           out while it is in use is `reused`. The loop of is_prime runs on as much fuel as the candidate, which is odd,
--           since its divisor grows in each round and stops at a divisor of the candidate; that of next_prime
--           on 2 ^ 63, since an odd number reaches SIZE_MAX in fewer steps of two.
-- CycleCheck
--           internal/gnulib/cycle_check.h, cycle_check_init.h and CYCLE_CHECK_REFLECT_CHDIR_UP.h there, with the branches of
--           setup_dir, enter_dir and leave_dir in fts-common.h and fts_read.h that call them. A call of
--           abort is `none`. CycleCheck.Walk has the walks over a hierarchy that fts_read makes of these.
-- Active    The other branches of setup_dir, enter_dir, leave_dir and free_dir, for FTS_TIGHT_CYCLE_CHECK and FTS_LOGICAL, on
--           the hash table of Hash, with AD_hash and AD_compare. The structures are a function of their
--           addresses, and the table's functions read it. Active.Walk has the walks over a hierarchy.
-- TempName  internal/gnulib/path_search.h, try_tempname_len.h, gen_tempname_len.h and gen_tempname.h there, and
--           tmpnam.h, for Unix. The environment, the file system, getrandom and the clocks are arguments. A
--           write outside an array is `fault`. The loop that draws a number runs on fuel and `spins` without
--           more; there is enough where getrandom fails or gives a number below the bound once in as many
--           calls.
-- FullWrite internal/gnulib/full_write.h and safe-read-write-template.h there. write is an argument. The loop
--           around interrupted calls runs on fuel, twice a number of calls of which one is not interrupted;
--           the loop over the buffer runs on the count, of which each round transfers a byte at least.
-- Obstack   internal/gnulib/obstack-common.h there, struct_obstack.h, obstack_init.h, obstack_room.h, obstack_blank_fast.h,
--           obstack_blank.h, obstack_grow.h, obstack_finish.h, obstack_alloc.h and obstack_free.h: stacks of objects. An
--           address is a number, the memory a function of it, and the chain of chunks, which are linked by
--           pointers at their heads in C, a list. The allocator is an argument. The handler for failed
--           allocations does not return and is `failed`, a call of abort is `aborted`, and a write outside
--           the current chunk is `fault`. Obstack.Script has scripts of calls and the stack that they stand for.
-- Printf    internal/gnulib/vasnprintf.h there, vdprintf.h, dprintf.h and obstack_printf.h: formatted output to a file
--           descriptor, through FullWrite, and to an Obstack. vsnprintf, for a fixed format and its arguments,
--           and malloc are arguments.
-- Harness   include/test-deps/z88dk.h: the suite, with its array of 300 tests, and the runner. A test is modelled by
--           whether it returns or jumps to the end by longjmp.
-- Ctype     tests/isalpha and tests/isdigit: the z88dk, llvm-project, avr-libc and pdclib programs. The function
--           under test belongs to the C library and is an argument. The z88dk programs have one test for each
--           byte value, and the lists of tests follow their main.
--
-- All other recursion is on the structure of its argument or on a count that the code itself
-- counts down.
--
-- Not modelled: the text that is printed; the rest of fts, wcscasecmp.h
-- and last_component.h, which are other components; the fallbacks on floating-point
-- numbers; the macros for compilers; the other test frameworks and test programs, which come from other
-- projects.
pub mod Active
pub mod Base
pub mod Bytes
pub mod Ctype
pub mod CycleCheck
pub mod FullWrite
pub mod Getopt
pub mod Harness
pub mod Hash
pub mod Obstack
pub mod Printf
pub mod Ring
pub mod StringBuffer
pub mod Strings
pub mod TempName
pub mod Wide
