-- ===== src/Examples.antt =====
-- Tests of the definitions on concrete inputs, and an instance of each theorem with conditions.
mod Sample
mod Strings
mod Files
mod Digests
mod Printing
mod Loading
mod Tables
mod Cores
mod Boards
mod Firmware
mod Archives
mod Booting
