-- ===== src/Blc/Line.antt =====
-- Why an opening evaluates the committed line: the functions of src/blc.rs on both sides, compared.
pub mod Functional
pub mod Folding
pub mod Rounds
pub mod Shifted
pub mod Hidden
pub mod Leaves
pub mod Seeds
pub mod Execution
pub mod Adjusted
pub mod Shown
pub mod Opening
pub mod All
pub mod Sizes
pub mod Lists
pub mod Batch
pub mod Total
pub mod Accepted
mod Tests
