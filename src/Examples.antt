-- ===== src/Examples.antt =====
-- Tests on concrete data, and one instance of each theorem that has a hypothesis.
mod Protocol
mod Mcu
mod App
mod Cooking
mod Session
mod Recipes
mod Simulator
mod Tools
mod Programs
mod Whole
