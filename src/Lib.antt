-- ===== src/Lib.antt =====
-- NODISKEMU, the firmware of a disk drive emulator for Commodore computers.
--
-- A command of the computer is read by the parser, changes buffers, disk images and files, and ends
-- with a message on the error channel, which is itself a buffer. The files here model these parts:
--
-- Utils, src/utils.c: appendnumber, bcd2int, int2bcd, ustr1tok, asc2pet.
-- Parser, src/parser.c: check_invalid_name, parse_partition, parse_number, parse_date; match_name
--   in Parser/Match and next_match in Parser/Select. A string is the list of its bytes up to the NUL;
--   a pointer into it is the rest of the list.
-- System: the state that the buffers, the LEDs and the error channel share. A pointer to a buffer is
--   its index in the array.
-- Errors, src/errormsg.c: the messages with their abbreviations and set_error_ts; Errors/Message, the
--   same messages written out, with which they are compared.
-- Buffers, src/buffers.c, src/led.c and the inline functions of their headers. The callbacks of the
--   buffers are a parameter.
-- D64, src/d64ops.c: the geometry of the images; D64/Mount, the size that decides the type;
--   D64/Search, get_first_sector and get_next_sector over an interface of the block map; D64/Bam,
--   the block map that implements it: the window of two buffers, is_free, sectors_free,
--   allocate_sector, free_sector and d64_bam_commit. The image files are a parameter there, with
--   laws for the reads and writes that succeed. D64/Read, checked_read over the same images;
--   D64/Files, the callbacks d64_read, d64_write and d64_write_cleanup over the functions before, as a
--   parameter with laws for valid states and for sectors that are for data;
--   D64/Delete, d64_delete.
-- Config, src/eeprom-conf.c: read_configuration and write_configuration, over the EEPROM of Eeprom.
-- Iec, src/iec.c: the serial bus. Iec/Receive, _iec_getc over a list of samples of the lines, one for
--   each round of a waiting loop; Iec/Send, iec_putc; Iec/Listen and Iec/Talk, the two handlers;
--   Iec/Loop, iec_mainloop with one function for each state of the bus, over the buffers of Buffers.
--   The command layer and the senders and receivers of the fast protocols are parameters there.
-- P00Cache, src/p00cache.c: the names of the P00 files of one partition.
-- Eeprom, src/eeprom-fs.c: bitmaps and entries; Eeprom/Directory, the directory; Eeprom/Files,
--   files. The EEPROM itself is a parameter with a law on writes.
-- Prelude: shared names, lists and bits.
--
-- Numbers are natural numbers, with the wrap-around of the machine's integers written out. The
-- CONFIG_ constants are arguments, but for the size of the error buffer.
--
-- Fuel: a search of the EEPROM's bitmaps has 256 rounds, more than it has places, as there are below
-- 256. eepromfs_write needs one round more than there are bytes, as every round writes one at least.
-- The loops of get_first_sector and get_next_sector take their fuel as an argument, since they
-- may not end; so does d64_delete, where more rounds than the file has links are enough.
-- appendmsg goes two levels deep. The loop of iec_listen_handler needs one round more than there are
-- bytes, that of iec_talk_handler one round for each buffer; 256 rounds send a buffer. The waits of
-- iec.c need no fuel: they go through a list of samples, and have no result when it ends before they
-- do.
--
-- Not modelled: FatFs, a copy of another project, and the operations on it; the commands and the
-- relative files of doscmd.c and fileops.c; the fast loaders, drivers and displays, which are timing
-- and hardware; the delays of iec.c, its ATN interrupt handler, which pulls DATA low, and its
-- reaction to card changes; the IEEE-488 bus; the directories of disk images, opening files and
-- formatting there.
pub mod Prelude
pub mod Utils
pub mod Parser
pub mod System
pub mod Errors
pub mod Buffers
pub mod D64
pub mod Eeprom
pub mod P00Cache
pub mod Config
pub mod Iec
